-- ===== src/Packet/Headers.antt =====
-- Where the parser finds the addresses and the end of the headers.
use deep_packet_analyzer.Base.{
  ℕ, zero, suc, ◌+◌, ◌-◌, if◌then◌else◌, ◌*◌, ◌≤◌, ◌<◌, ◌≡◌, ◌⊎◌, inl, inr, refl, subst, Bool, true,
  false, ◌||◌, none, some, ltb, length, get_or, arith, Bytes, byte_at, [], ◌∷◌, ok, Holds, Holds-ok,
  Bool-cases, Result-cases,
}
use deep_packet_analyzer.Pcap.Format.{RawPacket}
use deep_packet_analyzer.Packet.Order.{load32, ip_text}
use deep_packet_analyzer.Packet.{
  ParsedPacket, Layer, empty_packet, load_net16, load_net32, ip_at, mac_to_string, parse_ethernet,
  high_nibble, low_nibble, ipv4_fields, parse_ipv4, parse_tcp, parse_udp, set_payload,
  parse_transport, parse_network, parse,
}

pub byte_at-get_or : (p : Bytes) (i : ℕ) → i < length p → byte_at p i ≡ ok (get_or p i 0)
unfolding byte_at
byte_at-get_or [] i h = absurd (omega arith)
byte_at-get_or (x ∷ p) zero h = refl
byte_at-get_or (x ∷ p) (suc i) h = byte_at-get_or p i (omega arith)

-- The four bytes at an offset as the parser prints them.
abbrev pub address_text : Bool → Bytes → ℕ → Bytes
address_text little p i =
    ip_text little
      (load32 little (get_or p i 0) (get_or p (i + 1) 0) (get_or p (i + 2) 0) (get_or p (i + 3) 0))

ip_at-address_text :
    (little : Bool) (p : Bytes) (i : ℕ)
    → i + 4 ≤ length p
    → ip_at little p i ≡ ok (address_text little p i)
unfolding ip_at
ip_at-address_text little p i h =
    rw
      (
        byte_at-get_or p i (omega arith),
        byte_at-get_or p (i + 1) (omega arith),
        byte_at-get_or p (i + 2) (omega arith),
        byte_at-get_or p (i + 3) (omega arith),
      )
      refl

-- What the Ethernet header leaves of an empty packet.
abbrev IsFramed : Bytes → Layer → Type 0
IsFramed p l =
    l.0 ≡ true → (l.2 ≡ 14) × (l.1.has_ip ≡ false) × (l.1.has_tcp ≡ false) × (l.1.has_udp ≡ false)

parse_ethernet-IsFramed :
    (little : Bool) (raw : RawPacket)
    → Holds (parse_ethernet little raw.bytes (empty_packet raw) 0) (IsFramed raw.bytes)
unfolding parse_ethernet empty_packet
parse_ethernet-IsFramed little raw =
    ground
      (arith, Result-cases (mac_to_string raw.bytes 0), Result-cases (mac_to_string raw.bytes 6))

-- The fields of the network layer, which the layer above leaves alone.
abbrev SameNetwork : ParsedPacket → ParsedPacket → Type 0
SameNetwork parsed q =
    (q.src_ip ≡ parsed.src_ip)
    × (q.dest_ip ≡ parsed.dest_ip)
    × (q.protocol ≡ parsed.protocol)
    × (q.has_ip ≡ parsed.has_ip)

abbrev IsTcp : Bytes → ParsedPacket → ℕ → Layer → Type 0
IsTcp p parsed offset l =
    l.0 ≡ true
    → SameNetwork parsed l.1
      × (l.1.has_tcp ≡ true)
      × (offset + 20 ≤ length p)
      × (l.2 ≡ offset + high_nibble (get_or p (offset + 12) 0) * 4)
      × (l.2 ≤ length p)

parse_tcp-IsTcp :
    (little : Bool) (p : Bytes) (parsed : ParsedPacket) (offset : ℕ)
    → Holds (parse_tcp little p parsed offset) (IsTcp p parsed offset)
unfolding parse_tcp
parse_tcp-IsTcp little p parsed offset = elim (Bool-cases (ltb (length p) (offset + 20))) [
  | inl e ↦ ground (arith, e)
  | inr e ↦ ground (
    arith,
    e,
    Result-cases (load_net16 little p offset),
    Result-cases (load_net16 little p (offset + 2)),
    Result-cases (load_net32 little p (offset + 4)),
    Result-cases (load_net32 little p (offset + 8)),
    byte_at-get_or p (offset + 12) (ground arith),
    byte_at-get_or p (offset + 13) (ground arith),
  )
]

abbrev IsUdp : Bytes → ParsedPacket → ℕ → Layer → Type 0
IsUdp p parsed offset l =
    l.0 ≡ true
    → SameNetwork parsed l.1
      × (l.1.has_tcp ≡ parsed.has_tcp)
      × (l.1.has_udp ≡ true)
      × (l.2 ≡ offset + 8)
      × (l.2 ≤ length p)

parse_udp-IsUdp :
    (little : Bool) (p : Bytes) (parsed : ParsedPacket) (offset : ℕ)
    → Holds (parse_udp little p parsed offset) (IsUdp p parsed offset)
unfolding parse_udp
parse_udp-IsUdp little p parsed offset = elim (Bool-cases (ltb (length p) (offset + 8))) [
  | inl e ↦ ground (arith, e)
  | inr e ↦ ground (
    arith,
    e,
    Result-cases (load_net16 little p offset),
    Result-cases (load_net16 little p (offset + 2)),
  )
]

abbrev IsIpv4 : Bool → Bytes → ParsedPacket → ℕ → Layer → Type 0
IsIpv4 little p parsed offset l =
    l.0 ≡ true
    → (l.1.src_ip ≡ address_text little p (offset + 12))
      × (l.1.dest_ip ≡ address_text little p (offset + 16))
      × (l.1.protocol ≡ get_or p (offset + 9) 0)
      × (l.1.has_tcp ≡ parsed.has_tcp)
      × (l.1.has_udp ≡ parsed.has_udp)
      × (offset + 20 ≤ length p)
      × (l.2 ≡ offset + low_nibble (get_or p offset 0) * 4)
      × (l.2 ≤ length p)

parse_ipv4-IsIpv4 :
    (little : Bool) (p : Bytes) (parsed : ParsedPacket) (offset : ℕ)
    → Holds (parse_ipv4 little p parsed offset) (IsIpv4 little p parsed offset)
unfolding parse_ipv4 ipv4_fields
parse_ipv4-IsIpv4 little p parsed offset = elim (Bool-cases (ltb (length p) (offset + 20))) [
  | inl e ↦ ground (arith, e)
  | inr e ↦ ground (
    arith,
    e,
    byte_at-get_or p offset (ground arith),
    byte_at-get_or p (offset + 8) (ground arith),
    byte_at-get_or p (offset + 9) (ground arith),
    ip_at-address_text little p (offset + 12) (ground arith),
    ip_at-address_text little p (offset + 16) (ground arith),
  )
]

-- The transport header of a packet without VLAN tag, and the end of a TCP header.
abbrev pub transport_start : Bytes → ℕ
transport_start p = 14 + low_nibble (get_or p 14 0) * 4

abbrev pub tcp_end : Bytes → ℕ
tcp_end p = transport_start p + high_nibble (get_or p (transport_start p + 12) 0) * 4

-- The headers of a TCP or UDP packet lie in its bytes and end at `o`.
abbrev pub IsTransport : Bytes → ParsedPacket → ℕ → Type 0
IsTransport p q o =
    (34 ≤ length p)
    × (o ≤ length p)
    × (((q.has_tcp ≡ true) × (transport_start p + 20 ≤ length p) × (o ≡ tcp_end p))
        ⊎ ((q.has_tcp ≡ false) × (q.has_udp ≡ true) × (o ≡ transport_start p + 8)))

abbrev pub IsAddressed : Bool → Bytes → ParsedPacket → Type 0
IsAddressed little p q =
    (q.src_ip ≡ address_text little p 26)
    × (q.dest_ip ≡ address_text little p 30)
    × (q.protocol ≡ get_or p 23 0)

abbrev pub IsLocated : Bool → Bytes → ParsedPacket → ℕ → Type 0
IsLocated little p q o =
    (q.has_tcp || q.has_udp) ≡ true → IsAddressed little p q × IsTransport p q o

parse_transport-IsLocated :
    (little : Bool) (p : Bytes) (l : Layer)
    → IsAddressed little p l.1
    → l.1.has_tcp ≡ false
    → l.1.has_udp ≡ false
    → 34 ≤ length p
    → l.2 ≡ transport_start p
    → Holds (parse_transport little p l.1 l.2) (λ m. m.0 ≡ true → IsLocated little p m.1 m.2)
unfolding parse_transport
parse_transport-IsLocated little p l a t u n o = elim (Result-cases (parse_tcp little p l.1 l.2)) [
  | inl (f, e) ↦ elim (Result-cases (parse_udp little p l.1 l.2)) [
    | inl (g, e') ↦ ground (arith, e, e')
    | inr (m, e') ↦ ground (arith, e, e', Holds-ok _ _ _ (parse_udp-IsUdp little p l.1 l.2) e')
  ]
  | inr (k, e) ↦ elim (Result-cases (parse_udp little p l.1 l.2)) [
    | inl (g, e') ↦ ground (arith, e, e', Holds-ok _ _ _ (parse_tcp-IsTcp little p l.1 l.2) e)
    | inr (m, e') ↦ ground (
      arith,
      e,
      e',
      Holds-ok _ _ _ (parse_tcp-IsTcp little p l.1 l.2) e,
      Holds-ok _ _ _ (parse_udp-IsUdp little p l.1 l.2) e',
    )
  ]
]

parse_network-IsLocated :
    (little : Bool) (p : Bytes) (l : Layer)
    → l.2 ≡ 14
    → l.1.has_tcp ≡ false
    → l.1.has_udp ≡ false
    → Holds (parse_network little p l.1 l.2) (λ m. m.0 ≡ true → IsLocated little p m.1 m.2)
unfolding parse_network
parse_network-IsLocated little p l o t u = elim (Result-cases (parse_ipv4 little p l.1 l.2)) [
  | inl (f, e) ↦ ground (arith, e)
  | inr (ip, e) ↦
      let h = Holds-ok _ _ _ (parse_ipv4-IsIpv4 little p l.1 l.2) e in
      elim (Bool-cases ip.0) [
        | inl b ↦
            let k = subst (λ n. IsIpv4 little p l.1 n ip) o h b in
            let r =
              parse_transport-IsLocated little p ip (k.0, k.1, k.2) (ground (arith, k))
                (ground (arith, k)) (ground (arith, k)) (ground (arith, k)) in
            ground (arith, e, b, r)
        | inr b ↦ ground (arith, e, b)
      ]
]

-- The payload that the parser leaves.
abbrev pub IsParsed : Bool → Bytes → ParsedPacket → Type 0
IsParsed little p q =
    (q.has_tcp || q.has_udp) ≡ true
    → IsAddressed little p q
      × ((o : ℕ) × IsTransport p q o
          × (q.payload_length ≡ length p - o)
          × (q.payload_data ≡ (if ltb o (length p) then some o else none)))

set_payload-IsParsed :
    (little : Bool) (p : Bytes) (q : ParsedPacket) (o : ℕ)
    → IsLocated little p q o
    → IsParsed little p (set_payload p q o)
unfolding set_payload
set_payload-IsParsed little p q o h u = elim (Bool-cases (ltb o (length p))) [
  | inl e ↦ let k = h (ground (arith, e, u)) in rw e (k.0, (o, k.1, refl, rw e refl))
  | inr e ↦ let k = h (ground (arith, e, u)) in rw e (k.0, (o, k.1, ground (arith, e), rw e refl))
]

-- On a packet of TCP or UDP, the parser has read the two addresses at 26 and 30 and the protocol
-- at 23, and its payload begins where the header lengths in the packet say.
pub parse-IsLocated :
    (little : Bool) (raw : RawPacket)
    → Holds (parse little raw) (λ out. out.0 ≡ true → IsParsed little raw.bytes out.1)
unfolding parse
parse-IsLocated little raw =
    elim (Result-cases (parse_ethernet little raw.bytes (empty_packet raw) 0)) [
      | inl (f, e) ↦ rw e tt
      | inr (eth, e) ↦
          let h = Holds-ok _ _ _ (parse_ethernet-IsFramed little raw) e in
          elim (Bool-cases eth.0) [
            | inl b ↦ elim (Result-cases (parse_network little raw.bytes eth.1 eth.2)) [
              | inl (f, e') ↦ ground (arith, e, b, e')
              | inr (net, e') ↦
                  let k =
                    Holds-ok _ _ _
                      (parse_network-IsLocated little raw.bytes eth (h b).0 (h b).2 (h b).3) e' in
                  elim (Bool-cases net.0) [
                    | inl c ↦
                        rw (e, b, e', c)
                          (λ t. set_payload-IsParsed little raw.bytes net.1 net.2 (k c))
                    | inr c ↦ ground (arith, e, b, e', c)
                  ]
            ]
            | inr b ↦ ground (arith, e, b)
          ]
    ]
