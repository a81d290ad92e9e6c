-- ===== src/Multi/Label.antt =====
-- The name and the type that a packet gives its flow in the multi-threaded program.
use deep_packet_analyzer.Base.{
  ℕ, ◌<◌, ◌≤◌, ◌≡◌, ◌≢◌, ◌⊎◌, inl, inr, refl, ap, subst, ◌∙◌, Bool, true, false, Option, none, some,
  ltb, ◌==◌, arith, Bytes, slice-le, take, drop, if◌then◌else◌, Result, ok, Returns, Succeeds,
  Bool-cases, Option-cases,
}
use deep_packet_analyzer.App.{AppType, dns, https, http, sni_to_app_type}
use deep_packet_analyzer.Tuple.{FiveTuple}
use deep_packet_analyzer.Extract.Tls
use deep_packet_analyzer.Extract.Http
use deep_packet_analyzer.Extract.Tls.Safety.{tls_extract-Succeeds}
use deep_packet_analyzer.Extract.Http.Host.{http_extract-Succeeds}
use deep_packet_analyzer.Multi.{
  Packet, FlowEntry, name_in, try_name, set_classified, classify_port, classify_or, classify_flow,
  classify_new,
}
use deep_packet_analyzer.Multi.Payload.{IsSized}

-- What is known of a flow.
pub record Label : Type 0 where
  pub app_type : AppType
  pub sni : Bytes
  pub classified : Bool

abbrev pub label : FlowEntry → Label
label f = record { app_type = f.app_type; sni = f.sni; classified = f.classified }

-- The packet goes to the port, and the extractor finds the name in its payload of more than
-- `least` bytes.
pub record IsFound (extract : Bytes → Result (Option Bytes)) (port least : ℕ) (pkt : Packet)
    (name : Bytes) : Type 0 where
  pub size : ℕ
  pub sized : pkt.payload_length ≡ some size
  pub to_port : pkt.tuple.dst_port ≡ port
  pub enough : least < size
  pub extracted : extract (take size (drop pkt.payload_offset pkt.bytes)) ≡ ok (some name)

-- The packet goes to another port, or has too few bytes, or the extractor finds no name.
pub data IsMissed (extract : Bytes → Result (Option Bytes)) (port least : ℕ) (pkt : Packet)
    : Type 0 where
  other_port : pkt.tuple.dst_port ≢ port → IsMissed extract port least pkt
  too_short :
      (size : ℕ) → pkt.payload_length ≡ some size → size ≤ least → IsMissed extract port least pkt
  no_name :
      (size : ℕ)
      → pkt.payload_length ≡ some size
      → extract (take size (drop pkt.payload_offset pkt.bytes)) ≡ ok none
      → IsMissed extract port least pkt

-- The label by the ports alone: the name stays.
pub data IsByPort (t : FiveTuple) (a b : Label) : Type 0 where
  is_dns :
      (t.dst_port ≡ 53) ⊎ (t.src_port ≡ 53)
      → b ≡ record a { app_type = dns; classified = true }
      → IsByPort t a b
  is_https : t.dst_port ≡ 443 → t.src_port ≢ 53 → b ≡ record a { app_type = https } → IsByPort t a b
  is_http : t.dst_port ≡ 80 → t.src_port ≢ 53 → b ≡ record a { app_type = http } → IsByPort t a b
  is_other :
      t.dst_port ≢ 53
      → t.src_port ≢ 53
      → t.dst_port ≢ 443
      → t.dst_port ≢ 80
      → b ≡ a
      → IsByPort t a b

-- A name gives the type that it stands for.
abbrev pub named : Bytes → Label
named name = record { app_type = sni_to_app_type name; sni = name; classified = true }

-- The label of a flow before and after a packet.
pub data IsLabelled (pkt : Packet) (a b : Label) : Type 0 where
  stays : a.classified ≡ true → b ≡ a → IsLabelled pkt a b
  by_sni :
      (name : Bytes)
      → a.classified ≡ false
      → IsFound Tls.extract 443 5 pkt name
      → b ≡ named name
      → IsLabelled pkt a b
  by_host :
      (name : Bytes)
      → a.classified ≡ false
      → IsFound Http.extract 80 10 pkt name
      → b ≡ named name
      → IsLabelled pkt a b
  by_port :
      a.classified ≡ false
      → IsMissed Tls.extract 443 5 pkt
      → IsMissed Http.extract 80 10 pkt
      → IsByPort pkt.tuple a b
      → IsLabelled pkt a b

abbrev IsTried : (Bytes → Result (Option Bytes)) → ℕ → ℕ → Packet → Option Bytes → Type 0
IsTried extract port least pkt none = IsMissed extract port least pkt
IsTried extract port least pkt (some name) = IsFound extract port least pkt name

tried :
    (extract : Bytes → Result (Option Bytes)) (port least size : ℕ) (pkt : Packet)
    (o : Option Bytes)
    → pkt.payload_length ≡ some size
    → pkt.tuple.dst_port ≡ port
    → least < size
    → extract (take size (drop pkt.payload_offset pkt.bytes)) ≡ ok o
    → IsTried extract port least pkt o
tried extract port least size pkt none s p l e = no_name size s e
tried extract port least size pkt (some name) s p l e = record {
  size = size;
  sized = s;
  to_port = p;
  enough = l;
  extracted = e;
}

try_name-IsTried :
    (extract : Bytes → Result (Option Bytes)) (port least : ℕ) (pkt : Packet)
    → ((p : Bytes) → Succeeds (extract p))
    → IsSized pkt
    → Returns (try_name extract port least pkt) (IsTried extract port least pkt)
unfolding try_name name_in
try_name-IsTried extract port least pkt h (size, e, l) =
    let c = slice-le pkt.bytes pkt.payload_offset size l in
    let (o, f) = h (take size (drop pkt.payload_offset pkt.bytes)) in
    elim (Bool-cases (pkt.tuple.dst_port == port)) [
      | inl b ↦ elim (Bool-cases (ltb least size)) [
        | inl d ↦ (
          o,
          rw (b, e, d, c, f) refl,
          tried extract port least size pkt o e (ground (arith, b)) (ground (arith, d)) f,
        )
        | inr d ↦ (none, rw (b, e, d) refl, too_short size e (ground (arith, d)))
      ]
      | inr b ↦ (none, rw b refl, other_port (ground (arith, b)))
    ]

classify_port-IsByPort :
    (pkt : Packet) (f : FlowEntry) → IsByPort pkt.tuple (label f) (label (classify_port pkt f))
unfolding classify_port
classify_port-IsByPort pkt f = elim (Bool-cases (pkt.tuple.dst_port == 53)) [
  | inl a ↦ is_dns (inl (ground (arith, a))) (rw a refl)
  | inr a ↦ elim (Bool-cases (pkt.tuple.src_port == 53)) [
    | inl b ↦ is_dns (inr (ground (arith, b))) (rw (a, b) refl)
    | inr b ↦ elim (Bool-cases (pkt.tuple.dst_port == 443)) [
      | inl c ↦ is_https (ground (arith, c)) (ground (arith, b)) (rw (a, b, c) refl)
      | inr c ↦ elim (Bool-cases (pkt.tuple.dst_port == 80)) [
        | inl d ↦ is_http (ground (arith, d)) (ground (arith, b)) (rw (a, b, c, d) refl)
        | inr d ↦
            is_other (ground (arith, a)) (ground (arith, b)) (ground (arith, c)) (ground (arith, d))
              (rw (a, b, c, d) refl)
      ]
    ]
  ]
]

-- The counts and the verdict stay; the label changes as told.
abbrev pub IsRelabelled : Packet → FlowEntry → FlowEntry → Type 0
IsRelabelled pkt f g =
    (g.blocked ≡ f.blocked)
    × (g.packets ≡ f.packets)
    × (g.bytes ≡ f.bytes)
    × (g.tuple ≡ f.tuple)
    × IsLabelled pkt (label f) (label g)

classify_port-kept :
    (pkt : Packet) (f : FlowEntry)
    → ((classify_port pkt f).blocked ≡ f.blocked)
      × ((classify_port pkt f).packets ≡ f.packets)
      × ((classify_port pkt f).bytes ≡ f.bytes)
      × ((classify_port pkt f).tuple ≡ f.tuple)
unfolding classify_port
classify_port-kept pkt f = ground arith

classify_flow-IsRelabelled :
    (pkt : Packet) (f : FlowEntry)
    → f.classified ≡ false
    → IsSized pkt
    → Returns (classify_flow pkt f) (IsRelabelled pkt f)
unfolding classify_flow classify_or
classify_flow-IsRelabelled pkt f new h =
    let (sni, e, s) = try_name-IsTried Tls.extract 443 5 pkt tls_extract-Succeeds h in
    let (host, k, t) = try_name-IsTried Http.extract 80 10 pkt http_extract-Succeeds h in
    let (b, p, y, u) = classify_port-kept pkt f in
    elim (Option-cases sni) [
      | inr (name, a) ↦
          let found = subst (IsTried Tls.extract 443 5 pkt) a s in
          (
            set_classified f name,
            rw (e, a) refl,
            (refl, refl, refl, refl, by_sni name new found refl),
          )
      | inl a ↦
          let missed = subst (IsTried Tls.extract 443 5 pkt) a s in
          elim (Option-cases host) [
            | inr (name, c) ↦
                let found = subst (IsTried Http.extract 80 10 pkt) c t in
                (
                  set_classified f name,
                  rw (e, a, k, c) refl,
                  (refl, refl, refl, refl, by_host name new found refl),
                )
            | inl c ↦
                let none_found = subst (IsTried Http.extract 80 10 pkt) c t in
                (
                  classify_port pkt f,
                  rw (e, a, k, c) refl,
                  (b, p, y, u, by_port new missed none_found (classify_port-IsByPort pkt f)),
                )
          ]
    ]

pub classify_new-IsRelabelled :
    (pkt : Packet) (f : FlowEntry) → IsSized pkt → Returns (classify_new pkt f) (IsRelabelled pkt f)
unfolding classify_new
classify_new-IsRelabelled pkt f h = elim (Bool-cases f.classified) [
  | inl e ↦ (f, rw e refl, (refl, refl, refl, refl, stays e refl))
  | inr e ↦
      let (g, k, l) = classify_flow-IsRelabelled pkt f e h in
      (g, ap (λ b. if b then ok f else classify_flow pkt f) e ∙ k, l)
]
