-- ===== src/Multi/Round.antt =====
-- What a packet does to its flow in the multi-threaded program.
use deep_packet_analyzer.Base.{
  ◌≡◌, ◌≢◌, inl, inr, refl, ap, Option, none, some, ◌==◌, length, arith, if◌then◌else◌, ok, ◌>>=◌,
  Returns, Bool-cases, ◌||◌, subst, sym,
}
use deep_packet_analyzer.Tuple.{FiveTuple, tuple_eq_iff}
use deep_packet_analyzer.Connection.{add64}
use deep_packet_analyzer.Simple.{BlockingRules, is_blocked}
use deep_packet_analyzer.Simple.Table.{fetch, put, fetch-put}
use deep_packet_analyzer.Multi.{
  Packet, FlowEntry, FastPath, count_entry, check_entry, update_entry, entry_of, record_app,
  count_verdict, run_packet,
}
use deep_packet_analyzer.Multi.Label.{IsLabelled, IsRelabelled, label, classify_new-IsRelabelled}
use deep_packet_analyzer.Multi.Payload.{IsSized}

-- The entry of a flow after a packet: counted, labelled, and blocked exactly if it was or if the
-- rules block the source, the type or the name that it has now.
pub record IsUpdated (rules : BlockingRules) (pkt : Packet) (f g : FlowEntry) : Type 0 where
  pub tuple : g.tuple ≡ (if f.packets == 0 then pkt.tuple else f.tuple)
  pub packets : g.packets ≡ add64 f.packets 1
  pub bytes : g.bytes ≡ add64 f.bytes (length pkt.bytes)
  pub labelled : IsLabelled pkt (label f) (label g)
  pub blocked : g.blocked ≡ (f.blocked || is_blocked rules pkt.tuple.src_ip g.app_type g.sni)

label-count_entry : (pkt : Packet) (f : FlowEntry) → label (count_entry pkt f) ≡ label f
unfolding count_entry
label-count_entry pkt f = elim (Bool-cases (f.packets == 0)) [
  | inl e ↦ rw e refl
  | inr e ↦ rw e refl
]

label-check_entry :
    (rules : BlockingRules) (pkt : Packet) (g : FlowEntry)
    → label (check_entry rules pkt g) ≡ label g
unfolding check_entry
label-check_entry rules pkt g = elim (Bool-cases g.blocked) [
  | inl e ↦ rw e refl
  | inr e ↦ rw e refl
]

check_entry-IsUpdated :
    (rules : BlockingRules) (pkt : Packet) (f g : FlowEntry)
    → IsRelabelled pkt (count_entry pkt f) g
    → IsUpdated rules pkt f (check_entry rules pkt g)
unfolding check_entry count_entry
check_entry-IsUpdated rules pkt f g (b, p, y, t, l) = record {
  tuple = ground (arith, t);
  packets = ground (arith, p);
  bytes = ground (arith, y);
  labelled =
      subst (IsLabelled pkt (label f)) (sym (label-check_entry rules pkt g))
        (subst (λ a. IsLabelled pkt a (label g)) (label-count_entry pkt f) l);
  blocked = ground (arith, b);
}

pub update_entry-IsUpdated :
    (rules : BlockingRules) (pkt : Packet) (f : FlowEntry)
    → IsSized pkt
    → Returns (update_entry rules pkt f) (IsUpdated rules pkt f)
unfolding update_entry
update_entry-IsUpdated rules pkt f h =
    let (g, k, l) = classify_new-IsRelabelled pkt (count_entry pkt f) h in
    (
      check_entry rules pkt g,
      ap (λ r. r >>= λ x. ok (check_entry rules pkt x)) k,
      check_entry-IsUpdated rules pkt f g l,
    )

-- A fast path after a packet: the entry of the packet's flow, the entries of the others, and the
-- verdict.
pub record IsRound (rules : BlockingRules) (pkt : Packet) (fp : FastPath)
    (out : FastPath × Option Packet) : Type 0 where
  pub entry : FlowEntry
  pub found : fetch pkt.tuple out.0.flows ≡ some entry
  pub updated : IsUpdated rules pkt (entry_of pkt.tuple fp.flows) entry
  pub others : (t : FiveTuple) → t ≢ pkt.tuple → fetch t out.0.flows ≡ fetch t fp.flows
  pub verdict : out.1 ≡ (if entry.blocked then none else some pkt)
  pub processed : out.0.processed ≡ add64 fp.processed 1
  pub forwarded :
      out.0.stats.forwarded
      ≡ (if entry.blocked then fp.stats.forwarded else add64 fp.stats.forwarded 1)
  pub dropped :
      out.0.stats.dropped ≡ (if entry.blocked then add64 fp.stats.dropped 1 else fp.stats.dropped)

-- The fast path and the output, once the entry is known.
abbrev after : Packet → FastPath → FlowEntry → FastPath × Option Packet
after pkt fp f = (
  record {
    flows = put pkt.tuple f fp.flows;
    processed = add64 fp.processed 1;
    stats = count_verdict f.blocked (record_app f.app_type f.sni fp.stats);
  },
  if f.blocked then none else some pkt,
)

-- With a payload that lies in the packet, an iteration of the loop that got a packet ends without
-- undefined behaviour. It writes the entry of the packet's flow and no other. The entry is counted.
-- Once classified it keeps its name and type; before, it gets a name and its type from the Client
-- Hello of a packet to port 443, or from the Host of a packet to port 80, and a type by the ports
-- where there is no name. It is blocked exactly if it was or if the rules block its source, type or
-- name. The packet is passed on exactly if its flow is not blocked, and counted as forwarded or as
-- dropped accordingly.
pub run_packet-IsRound :
    (rules : BlockingRules) (pkt : Packet) (fp : FastPath)
    → IsSized pkt
    → Returns (run_packet rules pkt fp) (IsRound rules pkt fp)
unfolding run_packet record_app count_verdict
run_packet-IsRound rules pkt fp h =
    let (f, e, k) = update_entry-IsUpdated rules pkt (entry_of pkt.tuple fp.flows) h in
    (
      after pkt fp f,
      ap (λ r. r >>= λ x. ok (after pkt fp x)) e,
      record {
        entry = f;
        found =
            ground
              (arith, fetch-put pkt.tuple pkt.tuple f fp.flows, tuple_eq_iff pkt.tuple pkt.tuple);
        updated = k;
        others =
            λ t n. ground (arith, fetch-put t pkt.tuple f fp.flows, tuple_eq_iff pkt.tuple t, n);
        verdict = refl;
        processed = refl;
        forwarded = ground arith;
        dropped = ground arith;
      },
    )
