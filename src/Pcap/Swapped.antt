-- ===== src/Pcap/Swapped.antt =====
-- A capture of the other byte order, copied by the engine: `writeOutputHeader` writes the header
-- as the reader holds it, the old magic number in front of fields in the machine's order.
use deep_packet_analyzer.Base.{
  ℕ, suc, ◌+◌, ◌*◌, ◌%◌, ◌^◌, ◌≤◌, ◌<◌, ◌≡◌, refl, ap, ◌∙◌, Bool, true, false, not, List, [], ◌∷◌,
  ◌++◌, none, some, length, Bytes, arith, ok,
}
use deep_packet_analyzer.Ip.{octet}
use deep_packet_analyzer.Packet.Order.{load32, swap_bytes32, swap_bytes32_lem}
use deep_packet_analyzer.Pcap.Format.{PcapGlobalHeader, PcapPacketHeader, RawPacket}
use deep_packet_analyzer.Pcap.{
  PcapReader, maybe_swap32, check_magic, check_header, open_reader, read_packet_header,
  swap_packet_header, read_body, after_header, read_next_packet, read_packets, write_header,
  write_packet,
}
use deep_packet_analyzer.Pcap.Order.{reload32, reload32_same}
use deep_packet_analyzer.Pcap.RoundTrip.{
  write_packets, IsHeader, opened_header, reload_header, open_reader-write_header,
  read_global_header-write_header, read_packet_header-store32,
}

-- The length of a packet with its bytes in the wrong places is beyond every limit.
swapped_length : (n : ℕ) → 0 < n → n ≤ 65535 → 65535 < swap_bytes32 n
swapped_length n h k =
    let e : octet n 0 + octet n 8 * 2 ^ 8 + 0 * 2 ^ 16 + 0 * 2 ^ 24 ≡ n = omega arith in
    let f =
      swap_bytes32_lem (octet n 0) (octet n 8) 0 0 (omega arith) (omega arith) (omega arith)
        (omega arith) in
    omega (arith, f, ap swap_bytes32 e)

read_body_long :
    (r : PcapReader) (h : PcapPacketHeader) (rest : Bytes)
    → 65535 < h.incl_len
    → read_body r h rest ≡ none
unfolding read_body
read_body_long r h rest k = ground arith

-- A reader that swaps finds no packet where a packet was written in the machine's order.
swapping_reader :
    (little : Bool) (r : PcapReader) (p : RawPacket) (rest : Bytes)
    → r.needs_byte_swap ≡ true
    → r.rest ≡ write_packet little p.header.ts_sec p.header.ts_usec p.bytes rest
    → 0 < length p.bytes
    → length p.bytes ≤ 65535
    → read_next_packet little r ≡ none
unfolding read_next_packet write_packet after_header
swapping_reader little r p rest s e h k =
    let n = length p.bytes % 2 ^ 32 in
    let hd : PcapPacketHeader = record {
      ts_sec = p.header.ts_sec;
      ts_usec = p.header.ts_usec;
      incl_len = n;
      orig_len = n;
    } in
    let loaded : reload32 little little n ≡ length p.bytes =
      reload32_same little n (omega arith) ∙ omega arith in
    let wrong : maybe_swap32 true (reload32 little little n) ≡ swap_bytes32 (length p.bytes) =
      unfold maybe_swap32 in ap swap_bytes32 loaded in
    ap (λ file. after_header r (read_packet_header little file)) e
    ∙ ap (after_header r) (
        read_packet_header-store32 little little p.header.ts_sec p.header.ts_usec n n
          (p.bytes ++ rest))
    ∙ ap
        (λ needs.
          read_body r (swap_packet_header needs (reload_header little little hd)) (p.bytes ++ rest))
        s
    ∙ read_body_long r (swap_packet_header true (reload_header little little hd)) (p.bytes ++ rest)
        (unfold swap_packet_header in omega (arith, wrong, swapped_length (length p.bytes) h k))

-- The header that the engine writes is taken for one of the other byte order.
copied_needs_swap :
    (little : Bool) (h : PcapGlobalHeader) (rest : Bytes)
    → (r : PcapReader) × (open_reader little
          (some (write_header little (opened_header (not little) little h) rest))
        ≡ some r)
      × (r.needs_byte_swap ≡ true)
      × (r.rest ≡ rest)
unfolding open_reader check_header check_magic load32
copied_needs_swap true h rest = (
  _,
  ap check_header (read_global_header-write_header true true (opened_header false true h) rest),
  refl,
  refl,
)
copied_needs_swap false h rest = (
  _,
  ap check_header (read_global_header-write_header false false (opened_header true false h) rest),
  refl,
  refl,
)

-- A capture of the other byte order is opened; copied as the engine copies it, header and packets,
-- it opens as well, but no packet is read from it, if its first packet has a byte and no more than
-- 65535.
pub read_packets_copied :
    (little : Bool) (h : PcapGlobalHeader) (p : RawPacket) (ps : List RawPacket)
    → IsHeader h
    → 0 < length p.bytes
    → length p.bytes ≤ 65535
    → (r : PcapReader) × (open_reader little
          (some (write_header (not little) h (write_packets (not little) (p ∷ ps))))
        ≡ some r)
      × (copy : PcapReader) × (open_reader little
            (some (write_header little r.global_header (write_packets little (p ∷ ps))))
          ≡ some copy)
      × ((fuel : ℕ) → read_packets (suc fuel) little copy ≡ ok [])
unfolding write_packets
read_packets_copied little h p ps v a b =
    let (copy, e, s, f) = copied_needs_swap little h (write_packets little (p ∷ ps)) in
    (
      _,
      open_reader-write_header (not little) little h (write_packets (not little) (p ∷ ps)) v,
      copy,
      e,
      λ fuel.
          unfold read_packets in
          rw (swapping_reader little copy p (write_packets little ps) s f a b, read_packets) refl,
    )
