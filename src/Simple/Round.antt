-- ===== src/Simple/Round.antt =====
-- What a packet does to the state of the single-threaded program.
use deep_packet_analyzer.Base.{
  ℕ, ◌+◌, ◌%◌, ◌^◌, ◌<◌, ◌≡◌, ◌≢◌, inl, inr, refl, ap, subst, sym, ◌∙◌, Bool, true, false, List, [],
  ◌∷◌, ◌++◌, some, append-nil, if◌then◌else◌, length, arith, IsBytes, All, IsSublist, skip, keep,
  done, Result, ok, ◌>>=◌, Returns, Bool-cases,
}
use deep_packet_analyzer.Tuple.{FiveTuple, tuple_eq, tuple_eq_iff}
use deep_packet_analyzer.Connection.{add64}
use deep_packet_analyzer.Rules.{num_eq}
use deep_packet_analyzer.Rules.Sets.{member}
use deep_packet_analyzer.Pcap.Format.{RawPacket}
use deep_packet_analyzer.Pcap.{write_packet}
use deep_packet_analyzer.Pcap.RoundTrip.{write_packets}
use deep_packet_analyzer.Packet.{ParsedPacket, parse}
use deep_packet_analyzer.Packet.Safety.{parse-Returns}
use deep_packet_analyzer.Engine.{is_skipped, five_tuple}
use deep_packet_analyzer.Engine.Job.{tuple_of, five_tuple-parse}
use deep_packet_analyzer.Engine.Reader.{is_accepted, is_accepted_lem}
use deep_packet_analyzer.Simple.Table.{fetch, put, fetch-put}
use deep_packet_analyzer.Simple.Update.{IsUpdated, update_flow-IsUpdated}
use deep_packet_analyzer.Simple.{
  Flow, BlockingRules, is_blocked, flow_of, count_app, Program, forward_or_drop, handle_flow,
  handle_packet,
}

abbrev pub Flows : Type 0
Flows = List (FiveTuple × Flow)

-- The flows that are not blocked pass the rules.
abbrev pub IsChecked : BlockingRules → Flows → Type 0
IsChecked rules flows =
    (t : FiveTuple) (f : Flow)
    → fetch t flows ≡ some f
    → f.blocked ≡ false
    → is_blocked rules t.src_ip f.app_type f.sni ≡ false

abbrev pub IsBlockedFlow : FiveTuple → Flows → Type 0
IsBlockedFlow t flows = (f : Flow) × (fetch t flows ≡ some f) × (f.blocked ≡ true)

put-IsChecked :
    (rules : BlockingRules) (flows : Flows) (t : FiveTuple) (g : Flow)
    → (g.blocked ≡ false → is_blocked rules t.src_ip g.app_type g.sni ≡ false)
    → IsChecked rules flows
    → IsChecked rules (put t g flows)
put-IsChecked rules flows t g h k s f e b =
    ground (arith, fetch-put s t g flows, tuple_eq_iff t s, k s f)

put-IsBlockedFlow :
    (flows : Flows) (s t : FiveTuple) (g : Flow)
    → ((flow_of t flows).blocked ≡ true → g.blocked ≡ true)
    → IsBlockedFlow s flows
    → IsBlockedFlow s (put t g flows)
unfolding flow_of
put-IsBlockedFlow flows s t g h (f, e, b) = elim (Bool-cases (tuple_eq t s)) [
  | inl c ↦ (g, fetch-put s t g flows ∙ rw c refl, ground (arith, tuple_eq_iff t s))
  | inr c ↦ (f, fetch-put s t g flows ∙ rw c e, b)
]

-- The tuple of a packet that is parsed.
abbrev pub packet_tuple : Bool → RawPacket → Result FiveTuple
packet_tuple little raw = parse little raw >>= λ (out : Bool × ParsedPacket). five_tuple out.1

pub count_accepted : Bool → List RawPacket → ℕ
count_accepted little [] = 0
count_accepted little (raw ∷ raws) =
    (if is_accepted little raw then 1 else 0) + count_accepted little raws

pub count_accepted-cons :
    (little : Bool) (raw : RawPacket) (raws : List RawPacket)
    → count_accepted little (raw ∷ raws)
      ≡ count_accepted little (raw ∷ []) + count_accepted little raws
unfolding count_accepted
count_accepted-cons little raw raws = omega arith

-- From one state to another, over the packets between them: `kept` are those that are forwarded.
pub record IsRun (little : Bool) (rules : BlockingRules) (raws : List RawPacket) (st st' : Program)
    : Type 0 where
  pub kept : List RawPacket
  pub in_order : IsSublist kept raws
  pub lost : ℕ
  pub written : st'.output ≡ st.output ++ write_packets little kept
  pub total : st'.total_packets ≡ (st.total_packets + length raws) % 2 ^ 64
  pub passed : st'.forwarded ≡ (st.forwarded + length kept) % 2 ^ 64
  pub dropped : st'.dropped ≡ (st.dropped + lost) % 2 ^ 64
  pub accounted : length kept + lost ≡ count_accepted little raws
  pub clean :
      All
        (λ p.
          (t : FiveTuple)
          → packet_tuple little p ≡ ok t
          → member num_eq t.src_ip rules.blocked_ips ≡ false)
        kept
  pub checked : IsChecked rules st.flows → IsChecked rules st'.flows
  pub sticky :
      (t : FiveTuple)
      → IsBlockedFlow t st.flows
      → IsBlockedFlow t st'.flows × All (λ p. packet_tuple little p ≢ ok t) kept

pub nil-IsRun :
    (little : Bool) (rules : BlockingRules) (st : Program)
    → st.total_packets < 2 ^ 64
    → st.forwarded < 2 ^ 64
    → st.dropped < 2 ^ 64
    → IsRun little rules [] st st
unfolding count_accepted write_packets
nil-IsRun little rules st m n d = record {
  kept = [];
  lost = 0;
  in_order = done;
  written = sym (append-nil st.output);
  total = ground arith;
  passed = ground arith;
  dropped = ground arith;
  accounted = refl;
  clean = tt;
  checked = λ h. h;
  sticky = λ t h. (h, tt);
}

skipped-IsRun :
    (little : Bool) (rules : BlockingRules) (raw : RawPacket) (st : Program)
    → is_accepted little raw ≡ false
    → st.forwarded < 2 ^ 64
    → st.dropped < 2 ^ 64
    → IsRun little rules (raw ∷ []) st (record st { total_packets = add64 st.total_packets 1 })
unfolding count_accepted write_packets
skipped-IsRun little rules raw st a f d = record {
  kept = [];
  in_order = skip done;
  lost = 0;
  written = sym (append-nil st.output);
  total = refl;
  passed = ground arith;
  dropped = ground arith;
  accounted = ground (arith, a);
  clean = tt;
  checked = λ h. h;
  sticky = λ t h. (h, tt);
}

flow_of_found :
    (t : FiveTuple) (f : Flow) (flows : Flows) → fetch t flows ≡ some f → flow_of t flows ≡ f
unfolding flow_of
flow_of_found t f flows e = rw (e, flow_of) refl

forward_or_drop_blocked :
    (little : Bool) (raw : RawPacket) (f : Flow) (st : Program)
    → f.blocked ≡ true
    → forward_or_drop little raw f st ≡ record st { dropped = add64 st.dropped 1 }
unfolding forward_or_drop
forward_or_drop_blocked little raw f st b = rw b refl

forward_or_drop_passed :
    (little : Bool) (raw : RawPacket) (f : Flow) (st : Program)
    → f.blocked ≡ false
    → forward_or_drop little raw f st ≡ record st {
      forwarded = add64 st.forwarded 1;
      output = st.output ++ write_packet little raw.header.ts_sec raw.header.ts_usec raw.bytes [];
    }
unfolding forward_or_drop
forward_or_drop_passed little raw f st b = rw b refl

-- The state behind the update of the flow.
abbrev flowing : Program → FiveTuple → Flow → Program
flowing st t g = record st {
  total_packets = add64 st.total_packets 1;
  flows = put t g st.flows;
  app_stats = count_app g.app_type st.app_stats;
}

module _ (little : Bool) (rules : BlockingRules) (raw : RawPacket) (st : Program) (t : FiveTuple)
    (g : Flow) (here : packet_tuple little raw ≡ ok t) (accepted : is_accepted little raw ≡ true)
    (updated : IsUpdated rules t (length raw.bytes) (flow_of t st.flows) g)
    (few : st.forwarded < 2 ^ 64) (few' : st.dropped < 2 ^ 64) where
  flowing-IsChecked : IsChecked rules st.flows → IsChecked rules (flowing st t g).flows
  flowing-IsChecked = put-IsChecked rules st.flows t g updated.3

  flowing-sticky :
      (s : FiveTuple) → IsBlockedFlow s st.flows → IsBlockedFlow s (flowing st t g).flows
  flowing-sticky s = put-IsBlockedFlow st.flows s t g updated.2

  -- The packet of a blocked flow is not forwarded.
  forwarded-fresh :
      (s : FiveTuple)
      → g.blocked ≡ false
      → IsBlockedFlow s st.flows
      → packet_tuple little raw ≢ ok s
  forwarded-fresh s b (f, e, k) w =
      let p : t ≡ s = cc (here, w) in
      let e' : fetch t st.flows ≡ some f = ap (λ u. fetch u st.flows) p ∙ e in
      let v = updated.2 (ap (λ (x : Flow). x.blocked) (flow_of_found t f st.flows e') ∙ k) in
      ground (arith, v)

  forwarded-clean :
      g.blocked ≡ false
      → (s : FiveTuple) → packet_tuple little raw ≡ ok s
      → member num_eq s.src_ip rules.blocked_ips ≡ false
  unfolding is_blocked
  forwarded-clean b s e =
      let p : t ≡ s = cc (here, e) in
      ground (arith, ap (λ (u : FiveTuple). u.src_ip) p, updated.3 b)

  forward_or_drop-IsRun :
      IsRun little rules (raw ∷ []) st (forward_or_drop little raw g (flowing st t g))
  unfolding count_accepted write_packets
  forward_or_drop-IsRun = elim (Bool-cases g.blocked) [
    | inl b ↦
        subst (IsRun little rules (raw ∷ []) st)
          (sym (forward_or_drop_blocked little raw g (flowing st t g) b))
          (record {
            kept = [];
            in_order = skip done;
            lost = 1;
            written = sym (append-nil st.output);
            total = refl;
            passed = ground arith;
            dropped = refl;
            accounted = ground (arith, accepted);
            clean = tt;
            checked = flowing-IsChecked;
            sticky = λ s h. (flowing-sticky s h, tt);
          })
    | inr b ↦
        subst (IsRun little rules (raw ∷ []) st)
          (sym (forward_or_drop_passed little raw g (flowing st t g) b))
          (record {
            kept = raw ∷ [];
            in_order = keep done;
            lost = 0;
            written = refl;
            total = refl;
            passed = refl;
            dropped = ground arith;
            accounted = ground (arith, accepted);
            clean = (forwarded-clean b, tt);
            checked = flowing-IsChecked;
            sticky = λ s h. (flowing-sticky s h, (forwarded-fresh s b h, tt));
          })
  ]

-- A round ends, and runs over its packet.
pub handle_packet-IsRun :
    (little : Bool) (rules : BlockingRules) (raw : RawPacket) (st : Program)
    → IsBytes raw.bytes
    → st.forwarded < 2 ^ 64
    → st.dropped < 2 ^ 64
    → Returns (handle_packet little rules raw st) (IsRun little rules (raw ∷ []) st)
unfolding handle_packet
handle_packet-IsRun little rules raw st b n d =
    let (out, e, h) = parse-Returns little raw in
    let counted = record st { total_packets = add64 st.total_packets 1 } in
    let a = is_accepted_lem little raw out e in
    elim (Bool-cases out.0) [
      | inr c ↦ (counted, rw (e, c) refl, skipped-IsRun little rules raw st (a ∙ rw c refl) n d)
      | inl c ↦ elim (Bool-cases (is_skipped out.1)) [
        | inl k ↦
            (counted, rw (e, c, k) refl, skipped-IsRun little rules raw st (a ∙ rw (c, k) refl) n d)
        | inr k ↦
            let (l, t) = five_tuple-parse little raw out.1 b (e ∙ ap (λ x. ok (x, out.1)) c) k in
            let tuple = tuple_of raw.bytes out.1 in
            let (g, f, u) =
              update_flow-IsUpdated rules tuple raw.bytes out.1 (flow_of tuple st.flows)
                (omega (arith, l)) in
            (
              forward_or_drop little raw g (flowing st tuple g),
              rw (e, c, k, t) (unfold handle_flow in rw f refl),
              forward_or_drop-IsRun little rules raw st tuple g (rw (e, t) refl)
                  (a ∙ rw (c, k) refl) u n d,
            )
      ]
    ]
