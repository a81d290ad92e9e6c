-- ===== src/Pcap/Ends.antt =====
-- The loop over a capture ends, on any file.
use deep_packet_analyzer.Base.{
  subst, ℕ, zero, suc, ◌+◌, ◌≤◌, ◌<◌, ◌≡◌, refl, ap, Bool, [], ◌∷◌, Option, none, some, length,
  length-take, length-drop, All, Bytes, arith, Returns, Option-cases, inl, inr,
}
use deep_packet_analyzer.Pcap.Format.{PcapPacketHeader, RawPacket}
use deep_packet_analyzer.Pcap.{
  PcapReader, read_packet_header, swap_packet_header, read_body, after_header, read_next_packet,
  read_packets,
}

-- What a packet that was read satisfies, and how much of the file it took.
abbrev pub IsRead : PcapReader → Option (RawPacket × PcapReader) → Type 0
IsRead r none = Unit
IsRead r (some (p, r')) =
    (length p.bytes ≡ p.header.incl_len)
    × (length p.bytes ≤ 65535)
    × (length p.bytes ≤ r.global_header.snaplen)
    × (r'.global_header ≡ r.global_header)
    × (length r'.rest + 16 + length p.bytes ≡ length r.rest)

read_body-IsRead :
    (r : PcapReader) (h : PcapPacketHeader) (rest : Bytes)
    → length rest + 16 ≡ length r.rest
    → IsRead r (read_body r h rest)
unfolding read_body
read_body-IsRead r h rest e =
    ground (arith, length-take h.incl_len rest, length-drop h.incl_len rest)

-- A packet header that was read took 16 bytes.
IsSixteen : Bytes → Option (PcapPacketHeader × Bytes) → Type 0
IsSixteen file none = Unit
IsSixteen file (some (h, rest)) = length rest + 16 ≡ length file

read_packet_header-IsSixteen :
    (little : Bool) (file : Bytes) → IsSixteen file (read_packet_header little file)
unfolding IsSixteen read_packet_header
read_packet_header-IsSixteen little
      (a0 ∷ a1 ∷ a2 ∷ a3 ∷ b0 ∷ b1 ∷ b2 ∷ b3 ∷ c0 ∷ c1 ∷ c2 ∷ c3 ∷ d0 ∷ d1 ∷ d2 ∷ d3 ∷ rest) =
    omega arith
read_packet_header-IsSixteen little _ = tt

after_header-IsRead :
    (r : PcapReader) (o : Option (PcapPacketHeader × Bytes))
    → IsSixteen r.rest o
    → IsRead r (after_header r o)
unfolding IsSixteen after_header
after_header-IsRead r none h = tt
after_header-IsRead r (some (hd, rest)) h =
    read_body-IsRead r (swap_packet_header r.needs_byte_swap hd) rest h

pub read_next_packet-IsRead :
    (little : Bool) (r : PcapReader) → IsRead r (read_next_packet little r)
unfolding read_next_packet
read_next_packet-IsRead little r =
    after_header-IsRead r (read_packet_header little r.rest)
      (read_packet_header-IsSixteen little r.rest)

-- The packets that a reader with this limit gets.
abbrev pub IsWithin : ℕ → RawPacket → Type 0
IsWithin snaplen p =
    (length p.bytes ≡ p.header.incl_len) × (length p.bytes ≤ 65535) × (length p.bytes ≤ snaplen)

-- On any open reader the loop ends: it takes no more rounds than the file has bytes and one, and
-- every packet has the length its header says, which is no more than 65535 and than the limit of
-- the capture.
pub read_packets-Returns :
    (fuel : ℕ) (little : Bool) (r : PcapReader)
    → length r.rest < fuel
    → Returns (read_packets fuel little r) (All (IsWithin r.global_header.snaplen))
unfolding read_packets
read_packets-Returns zero little r h = absurd (omega arith)
read_packets-Returns (suc fuel) little r h = elim (Option-cases (read_next_packet little r)) [
  | inl e ↦ ([], rw (e, read_packets) refl, tt)
  | inr ((p, r'), e) ↦
      let (a, b, c, g, d) = subst (IsRead r) e (read_next_packet-IsRead little r) in
      let (ps, f, k) = read_packets-Returns fuel little r' (omega arith) in
      (
        p ∷ ps,
        rw (e, read_packets) (rw f refl),
        ((a, b, c), subst (λ n. All (IsWithin n) ps) (ap (λ hd. hd.snaplen) g) k),
      )
]
