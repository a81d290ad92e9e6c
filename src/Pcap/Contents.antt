-- ===== src/Pcap/Contents.antt =====
-- What is read from a file of bytes: numbers of their width, and packets of bytes.
use deep_packet_analyzer.Base.{
  ℕ, zero, suc, ◌^◌, ◌<◌, ◌≡◌, refl, subst, Bool, true, false, [], ◌∷◌, Option, none, some, ◌==◌,
  length, take, drop, All, Bytes, IsBytes, arith, Returns, Option-cases, Bool-cases, inl, inr,
}
use deep_packet_analyzer.Packet.Order.{load16, load32}
use deep_packet_analyzer.Pcap.Format.{PcapGlobalHeader, PcapPacketHeader, RawPacket}
use deep_packet_analyzer.Pcap.{
  PcapReader, magic_native, magic_swapped, maybe_swap32, read_global_header, check_magic,
  check_header, open_reader, read_packet_header, swap_packet_header, read_body, after_header,
  read_next_packet, read_packets,
}
use deep_packet_analyzer.Pcap.Ends.{IsRead, IsWithin, read_next_packet-IsRead}
use deep_packet_analyzer.Pcap.RoundTrip.{IsHeader}

take-IsBytes : (n : ℕ) (bs : Bytes) → IsBytes bs → IsBytes (take n bs)
take-IsBytes zero bs h = tt
take-IsBytes (suc n) [] h = tt
take-IsBytes (suc n) (b ∷ bs) h = (h.0, take-IsBytes n bs h.1)

drop-IsBytes : (n : ℕ) (bs : Bytes) → IsBytes bs → IsBytes (drop n bs)
drop-IsBytes zero bs h = h
drop-IsBytes (suc n) [] h = tt
drop-IsBytes (suc n) (b ∷ bs) h = drop-IsBytes n bs h.1

load16-lt : (little : Bool) (a b : ℕ) → a < 256 → b < 256 → load16 little a b < 2 ^ 16
unfolding load16
load16-lt true a b h k = omega arith
load16-lt false a b h k = omega arith

load32-lt :
    (little : Bool) (a b c d : ℕ)
    → a < 256
    → b < 256
    → c < 256
    → d < 256
    → load32 little a b c d < 2 ^ 32
unfolding load32
load32-lt true a b c d h k l m = omega arith
load32-lt false a b c d h k l m = omega arith

-- A header that was read, and the bytes behind it.
IsStamped : Option (PcapPacketHeader × Bytes) → Type 0
IsStamped none = Unit
IsStamped (some (h, rest)) = (h.ts_sec < 2 ^ 32) × (h.ts_usec < 2 ^ 32) × IsBytes rest

read_packet_header-IsStamped :
    (little : Bool) (file : Bytes) → IsBytes file → IsStamped (read_packet_header little file)
unfolding IsStamped read_packet_header
read_packet_header-IsStamped little
      (a0 ∷ a1 ∷ a2 ∷ a3 ∷ b0 ∷ b1 ∷ b2 ∷ b3 ∷ c0 ∷ c1 ∷ c2 ∷ c3 ∷ d0 ∷ d1 ∷ d2 ∷ d3 ∷ rest)
      (
        ha0,
        (
          ha1,
          (
            ha2,
            (
              ha3,
              (hb0, (hb1, (hb2, (hb3, (hc0, (hc1, (hc2, (hc3, (hd0, (hd1, (hd2, (hd3, h)))))))))))),
            ),
          ),
        ),
      ) =
    (load32-lt little a0 a1 a2 a3 ha0 ha1 ha2 ha3, load32-lt little b0 b1 b2 b3 hb0 hb1 hb2 hb3, h)
read_packet_header-IsStamped little _ h = tt

-- A packet that was read, and the reader behind it. The times are in range when nothing is swapped.
abbrev IsContent : PcapReader → Option (RawPacket × PcapReader) → Type 0
IsContent r none = Unit
IsContent r (some (p, r')) =
    IsBytes p.bytes
    × IsBytes r'.rest
    × (r'.needs_byte_swap ≡ r.needs_byte_swap)
    × (r.needs_byte_swap ≡ false → (p.header.ts_sec < 2 ^ 32) × (p.header.ts_usec < 2 ^ 32))

read_body-IsContent :
    (r : PcapReader) (h : PcapPacketHeader) (rest : Bytes)
    → IsBytes rest
    → (r.needs_byte_swap ≡ false → (h.ts_sec < 2 ^ 32) × (h.ts_usec < 2 ^ 32))
    → IsContent r (read_body r h rest)
unfolding read_body
read_body-IsContent r h rest b s =
    ground (arith, take-IsBytes h.incl_len rest b, drop-IsBytes h.incl_len rest b)

after_header-IsContent :
    (r : PcapReader) (o : Option (PcapPacketHeader × Bytes))
    → IsStamped o
    → IsContent r (after_header r o)
unfolding IsStamped after_header
after_header-IsContent r none h = tt
after_header-IsContent r (some (hd, rest)) h =
    read_body-IsContent r (swap_packet_header r.needs_byte_swap hd) rest h.2
      (λ e. unfold swap_packet_header maybe_swap32 in rw e (h.0, h.1))

abbrev pub IsPacket : Bool → ℕ → RawPacket → Type 0
IsPacket needs snaplen p =
    IsWithin snaplen p
    × IsBytes p.bytes
    × (needs ≡ false → (p.header.ts_sec < 2 ^ 32) × (p.header.ts_usec < 2 ^ 32))

pub read_packets-IsPacket :
    (fuel : ℕ) (little : Bool) (r : PcapReader)
    → length r.rest < fuel
    → IsBytes r.rest
    → Returns
        (read_packets fuel little r)
        (All (IsPacket r.needs_byte_swap r.global_header.snaplen))
unfolding read_packets
read_packets-IsPacket zero little r h b = absurd (omega arith)
read_packets-IsPacket (suc fuel) little r h b = elim (Option-cases (read_next_packet little r)) [
  | inl e ↦ ([], rw (e, read_packets) refl, tt)
  | inr ((p, r'), e) ↦
      let (l, m, n, g, d) = subst (IsRead r) e (read_next_packet-IsRead little r) in
      let (c, b', q, s) = subst (IsContent r) e (
        unfold read_next_packet in
        after_header-IsContent r (read_packet_header little r.rest)
          (read_packet_header-IsStamped little r.rest b)) in
      let (ps, f, k) = read_packets-IsPacket fuel little r' (omega arith) b' in
      (
        p ∷ ps,
        rw (e, read_packets) (rw f refl),
        (
          ((l, m, n), c, s),
          subst (λ x. All (IsPacket x r.global_header.snaplen) ps) q
              (subst (λ hd. All (IsPacket r'.needs_byte_swap hd.snaplen) ps) g k),
        ),
      )
]

-- The header of a capture in the machine's order, and the bytes behind it.
abbrev IsTop : Option (PcapGlobalHeader × Bytes) → Type 0
IsTop none = Unit
IsTop (some (h, rest)) =
    (h.version_major < 2 ^ 16)
    × (h.version_minor < 2 ^ 16)
    × (h.snaplen < 2 ^ 32)
    × (h.network < 2 ^ 32)
    × IsBytes rest

read_global_header-IsTop :
    (little : Bool) (file : Bytes) → IsBytes file → IsTop (read_global_header little file)
unfolding read_global_header
read_global_header-IsTop little
      (m0 ∷ m1 ∷ m2 ∷ m3 ∷ v0 ∷ v1 ∷ w0 ∷ w1 ∷ z0 ∷ z1 ∷ z2 ∷ z3 ∷ f0 ∷ f1 ∷ f2 ∷ f3 ∷ s0 ∷ s1 ∷ s2
        ∷ s3 ∷ n0 ∷ n1 ∷ n2 ∷ n3 ∷ rest)
      h =
    let v = h.1.1.1.1 in
    let w = v.1.1 in
    let s = w.1.1.1.1.1.1.1.1.1.1 in
    let n = s.1.1.1.1 in
    (
      load16-lt little v0 v1 v.0 v.1.0,
      load16-lt little w0 w1 w.0 w.1.0,
      load32-lt little s0 s1 s2 s3 s.0 s.1.0 s.1.1.0 s.1.1.1.0,
      load32-lt little n0 n1 n2 n3 n.0 n.1.0 n.1.1.0 n.1.1.1.0,
      n.1.1.1.1,
    )
read_global_header-IsTop little _ h = tt

-- A reader behind the header, which is a header of the format when nothing is swapped.
abbrev pub IsOpened : Option PcapReader → Type 0
IsOpened none = Unit
IsOpened (some r) = IsBytes r.rest × (r.needs_byte_swap ≡ false → IsHeader r.global_header)

check_magic-IsOpened :
    (h : PcapGlobalHeader) (rest : Bytes) → IsTop (some (h, rest)) → IsOpened (check_magic h rest)
unfolding check_magic
check_magic-IsOpened h rest (v, w, s, n, b) = elim (Bool-cases (h.magic_number == magic_native)) [
  | inl e ↦
      rw (check_magic, e)
        (b, λ k. record { magic = ground (arith, e); major = v; minor = w; snap = s; link = n })
  | inr e ↦ elim (Bool-cases (h.magic_number == magic_swapped)) [
    | inl f ↦ rw (check_magic, e, f) (b, λ k. absurd (ground (arith, k)))
    | inr f ↦ rw (check_magic, e, f) tt
  ]
]

pub open_reader-IsOpened :
    (little : Bool) (file : Bytes) → IsBytes file → IsOpened (open_reader little (some file))
unfolding open_reader check_header
open_reader-IsOpened little file b = elim (Option-cases (read_global_header little file)) [
  | inl e ↦ rw e tt
  | inr ((h, rest), e) ↦
      rw e (check_magic-IsOpened h rest (subst IsTop e (read_global_header-IsTop little file b)))
]
