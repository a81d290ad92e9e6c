-- ===== src/Packet/Safety.antt =====
-- The parser reads inside the packet only, and what it leaves as the payload lies in it.
use deep_packet_analyzer.Base.{
  ℕ, ◌+◌, ◌*◌, ◌≤◌, ◌<◌, ◌≡◌, refl, Bool, true, none, some, ltb, ◌==◌, length, arith, Bytes,
  byte_at-lt, Result, ok, err, Succeeds, Ends-Succeeds, Returns, Bool-cases, inl, inr,
}
use deep_packet_analyzer.Pcap.Format.{RawPacket}
use deep_packet_analyzer.Packet.{
  ParsedPacket, Layer, empty_packet, load_net16, load_net32, ip_at, mac_to_string, parse_ethernet,
  high_nibble, low_nibble, ipv4_fields, parse_ipv4, parse_tcp, parse_udp, set_payload,
  parse_transport, parse_network, parse,
}

load_net16-Succeeds :
    (little : Bool) (p : Bytes) (i : ℕ) → i + 2 ≤ length p → Succeeds (load_net16 little p i)
load_net16-Succeeds little p i h =
    let (a, e) = byte_at-lt p i (omega arith) in
    let (b, f) = byte_at-lt p (i + 1) (omega arith) in
    Ends-Succeeds (load_net16 little p i) (unfold load_net16 in ground (arith, e, f))

load_net32-Succeeds :
    (little : Bool) (p : Bytes) (i : ℕ) → i + 4 ≤ length p → Succeeds (load_net32 little p i)
load_net32-Succeeds little p i h =
    let (a, e) = byte_at-lt p i (omega arith) in
    let (b, f) = byte_at-lt p (i + 1) (omega arith) in
    let (c, g) = byte_at-lt p (i + 2) (omega arith) in
    let (d, k) = byte_at-lt p (i + 3) (omega arith) in
    Ends-Succeeds (load_net32 little p i) (unfold load_net32 in ground (arith, e, f, g, k))

ip_at-Succeeds :
    (little : Bool) (p : Bytes) (i : ℕ) → i + 4 ≤ length p → Succeeds (ip_at little p i)
ip_at-Succeeds little p i h =
    let (a, e) = byte_at-lt p i (omega arith) in
    let (b, f) = byte_at-lt p (i + 1) (omega arith) in
    let (c, g) = byte_at-lt p (i + 2) (omega arith) in
    let (d, k) = byte_at-lt p (i + 3) (omega arith) in
    Ends-Succeeds (ip_at little p i) (unfold ip_at in ground (arith, e, f, g, k))

mac_to_string-Succeeds : (p : Bytes) (i : ℕ) → i + 6 ≤ length p → Succeeds (mac_to_string p i)
mac_to_string-Succeeds p i h =
    let (a, e) = byte_at-lt p i (omega arith) in
    let (b, f) = byte_at-lt p (i + 1) (omega arith) in
    let (c, g) = byte_at-lt p (i + 2) (omega arith) in
    let (d, k) = byte_at-lt p (i + 3) (omega arith) in
    let (x, l) = byte_at-lt p (i + 4) (omega arith) in
    let (y, m) = byte_at-lt p (i + 5) (omega arith) in
    Ends-Succeeds (mac_to_string p i) (unfold mac_to_string in ground (arith, e, f, g, k, l, m))

-- A layer that was parsed ends within the packet.
IsLayer : Bytes → Layer → Type 0
IsLayer p l = l.0 ≡ true → l.2 ≤ length p

Ok : Bytes → Result Layer → Type 0
Ok p (ok l) = IsLayer p l
Ok p (err e) = ⊥

parse_ethernet-Ok :
    (little : Bool) (p : Bytes) (parsed : ParsedPacket) (offset : ℕ)
    → Ok p (parse_ethernet little p parsed offset)
unfolding Ok IsLayer parse_ethernet
parse_ethernet-Ok little p parsed offset = elim (Bool-cases (ltb (length p) 14)) [
  | inl e ↦ ground (arith, e)
  | inr e ↦
      let (a, ea) = mac_to_string-Succeeds p 0 (ground arith) in
      let (b, eb) = mac_to_string-Succeeds p 6 (ground arith) in
      let (c, ec) = load_net16-Succeeds little p 12 (ground arith) in ground (arith, e, ea, eb, ec)
]

parse_udp-Ok :
    (little : Bool) (p : Bytes) (parsed : ParsedPacket) (offset : ℕ)
    → Ok p (parse_udp little p parsed offset)
unfolding Ok IsLayer parse_udp
parse_udp-Ok little p parsed offset = elim (Bool-cases (ltb (length p) (offset + 8))) [
  | inl e ↦ ground (arith, e)
  | inr e ↦
      let (a, ea) = load_net16-Succeeds little p offset (ground arith) in
      let (b, eb) = load_net16-Succeeds little p (offset + 2) (ground arith) in
      ground (arith, e, ea, eb)
]

parse_tcp-Ok :
    (little : Bool) (p : Bytes) (parsed : ParsedPacket) (offset : ℕ)
    → Ok p (parse_tcp little p parsed offset)
unfolding Ok IsLayer parse_tcp
parse_tcp-Ok little p parsed offset = elim (Bool-cases (ltb (length p) (offset + 20))) [
  | inl e ↦ ground (arith, e)
  | inr e ↦
      let (a, ea) = load_net16-Succeeds little p offset (ground arith) in
      let (b, eb) = load_net16-Succeeds little p (offset + 2) (ground arith) in
      let (c, ec) = load_net32-Succeeds little p (offset + 4) (ground arith) in
      let (d, ed) = load_net32-Succeeds little p (offset + 8) (ground arith) in
      let (x, ex) = byte_at-lt p (offset + 12) (ground arith) in
      let (y, ey) = byte_at-lt p (offset + 13) (ground arith) in
      ground (arith, e, ea, eb, ec, ed, ex, ey)
]

ipv4_fields-Succeeds :
    (little : Bool) (p : Bytes) (parsed : ParsedPacket) (offset n : ℕ)
    → offset + 20 ≤ length p
    → (parsed' : ParsedPacket) × (ipv4_fields little p parsed offset n
        ≡ ok (true, parsed', offset + n))
unfolding ipv4_fields
ipv4_fields-Succeeds little p parsed offset n h =
    let (a, ea) = byte_at-lt p (offset + 8) (omega arith) in
    let (b, eb) = byte_at-lt p (offset + 9) (omega arith) in
    let (c, ec) = ip_at-Succeeds little p (offset + 12) (omega arith) in
    let (d, ed) = ip_at-Succeeds little p (offset + 16) (omega arith) in
    (
      record parsed { ttl = a; protocol = b; src_ip = c; dest_ip = d; has_ip = true },
      rw (ea, eb, ec, ed) refl,
    )

parse_ipv4-Ok :
    (little : Bool) (p : Bytes) (parsed : ParsedPacket) (offset : ℕ)
    → Ok p (parse_ipv4 little p parsed offset)
unfolding Ok IsLayer parse_ipv4
parse_ipv4-Ok little p parsed offset = elim (Bool-cases (ltb (length p) (offset + 20))) [
  | inl e ↦ ground (arith, e)
  | inr e ↦
      let (v, ev) = byte_at-lt p offset (ground arith) in
      let parsed' = record parsed { ip_version = high_nibble v } in
      let (q, f) = ipv4_fields-Succeeds little p parsed' offset (low_nibble v * 4) (ground arith) in
      ground (arith, e, ev, f)
]

Ok-cases : (p : Bytes) (r : Result Layer) → Ok p r → (l : Layer) × (r ≡ ok l) × IsLayer p l
unfolding Ok
Ok-cases p (ok l) h = (l, refl, h)
Ok-cases p (err e) h = absurd h

parse_transport-Ok :
    (little : Bool) (p : Bytes) (parsed : ParsedPacket) (offset : ℕ)
    → offset ≤ length p
    → Ok p (parse_transport little p parsed offset)
unfolding Ok IsLayer parse_transport
parse_transport-Ok little p parsed offset h =
    let (t, et, ht) =
      Ok-cases p (parse_tcp little p parsed offset) (parse_tcp-Ok little p parsed offset) in
    let (u, eu, hu) =
      Ok-cases p (parse_udp little p parsed offset) (parse_udp-Ok little p parsed offset) in
    ground (arith, et, eu, ht, hu)

parse_network-Ok :
    (little : Bool) (p : Bytes) (parsed : ParsedPacket) (offset : ℕ)
    → offset ≤ length p
    → Ok p (parse_network little p parsed offset)
unfolding parse_network IsLayer
parse_network-Ok little p parsed offset h = elim (Bool-cases (parsed.ether_type == 2048)) [
  | inl e ↦
      let (l, el, hl) =
        Ok-cases p (parse_ipv4 little p parsed offset) (parse_ipv4-Ok little p parsed offset) in
      elim (Bool-cases l.0) [
        | inl b ↦ rw (e, el, b) (parse_transport-Ok little p l.1 l.2 (hl b))
        | inr b ↦ rw (e, el, b) (unfold Ok in hl)
      ]
  | inr e ↦ rw e (unfold Ok in λ t. h)
]

-- Where the payload of a parsed packet lies.
abbrev pub IsPayload : ℕ → ParsedPacket → Type 0
IsPayload n parsed = elim parsed.payload_data [
  | none ↦ parsed.payload_length ≡ 0
  | some o ↦ (0 < parsed.payload_length) × (o + parsed.payload_length ≡ n)
]

set_payload-IsPayload :
    (p : Bytes) (parsed : ParsedPacket) (offset : ℕ)
    → IsPayload (length p) (set_payload p parsed offset)
unfolding set_payload
set_payload-IsPayload p parsed offset = ground arith

Fits : ℕ → Result (Bool × ParsedPacket) → Type 0
Fits n (ok out) = out.0 ≡ true → IsPayload n out.1
Fits n (err e) = ⊥

Fits-Returns :
    (n : ℕ) (r : Result (Bool × ParsedPacket))
    → Fits n r
    → Returns r (λ out. out.0 ≡ true → IsPayload n out.1)
unfolding Fits
Fits-Returns n (ok out) h = (out, refl, h)
Fits-Returns n (err e) h = absurd h

parse-Fits : (little : Bool) (raw : RawPacket) → Fits (length raw.bytes) (parse little raw)
unfolding parse IsLayer
parse-Fits little raw =
    let start = empty_packet raw in
    let (eth, e, h) =
      Ok-cases raw.bytes (parse_ethernet little raw.bytes start 0)
        (parse_ethernet-Ok little raw.bytes start 0) in
    elim (Bool-cases eth.0) [
      | inl b ↦
          let (net, f, k) =
            Ok-cases raw.bytes (parse_network little raw.bytes eth.1 eth.2)
              (parse_network-Ok little raw.bytes eth.1 eth.2 (h b)) in
          elim (Bool-cases net.0) [
            | inl c ↦
                rw (e, b, f, c) (unfold Fits in λ t. set_payload-IsPayload raw.bytes net.1 net.2)
            | inr c ↦ rw (e, b, f, c) (unfold Fits in ground arith)
          ]
      | inr b ↦ rw (e, b) (unfold Fits in ground arith)
    ]

-- On any bytes the parser ends without a read outside of them, and the payload of a packet that it
-- accepts is empty or the rest of the packet from some place on.
pub parse-Returns :
    (little : Bool) (raw : RawPacket)
    → Returns (parse little raw) (λ out. out.0 ≡ true → IsPayload (length raw.bytes) out.1)
parse-Returns little raw =
    Fits-Returns (length raw.bytes) (parse little raw) (parse-Fits little raw)
