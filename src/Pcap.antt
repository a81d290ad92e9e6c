-- ===== src/Pcap.antt =====
-- The capture reader, src/pcap_reader.cpp, and the two writes with which src/dpi_engine.cpp puts
-- out a capture. `little` is the byte order of the machine.
pub mod Format
pub mod Order
pub mod RoundTrip
pub mod Swapped
pub mod Ends
pub mod Contents
use deep_packet_analyzer.Base.{
  ℕ, zero, suc, ◌+◌, ◌%◌, ◌^◌, Bool, true, false, ◌||◌, List, [], ◌∷◌, ◌++◌, Option, none, some,
  ltb, leb, ◌==◌, if◌then◌else◌, length, take, drop, Bytes, Result, ok, err, ◌>>=◌, no_fuel,
}
use deep_packet_analyzer.Ip.{octet}
use deep_packet_analyzer.Packet.Order.{load16, load32, swap_bytes16, swap_bytes32}
use Format.{PcapGlobalHeader, PcapPacketHeader, RawPacket}

abbrev pub magic_native : ℕ
magic_native = 0xa1b2c3d4

abbrev pub magic_swapped : ℕ
magic_swapped = 0xd4c3b2a1

-- An open reader: `rest` is what the file holds behind the position of the stream.
pub record PcapReader : Type 0 where
  pub rest : Bytes
  pub global_header : PcapGlobalHeader
  pub needs_byte_swap : Bool

unfoldable pub maybe_swap16 : Bool → ℕ → ℕ
maybe_swap16 needs v = if needs then swap_bytes16 v else v

unfoldable pub maybe_swap32 : Bool → ℕ → ℕ
maybe_swap32 needs v = if needs then swap_bytes32 v else v

-- `file_.read` of the 24 bytes of the global header; `none` when the file is shorter.
unfoldable pub read_global_header : Bool → Bytes → Option (PcapGlobalHeader × Bytes)
read_global_header little
      (m0 ∷ m1 ∷ m2 ∷ m3 ∷ v0 ∷ v1 ∷ w0 ∷ w1 ∷ z0 ∷ z1 ∷ z2 ∷ z3 ∷ f0 ∷ f1 ∷ f2 ∷ f3 ∷ s0 ∷ s1 ∷ s2
        ∷ s3 ∷ n0 ∷ n1 ∷ n2 ∷ n3 ∷ rest) =
    some (
      record {
        magic_number = load32 little m0 m1 m2 m3;
        version_major = load16 little v0 v1;
        version_minor = load16 little w0 w1;
        thiszone = load32 little z0 z1 z2 z3;
        sigfigs = load32 little f0 f1 f2 f3;
        snaplen = load32 little s0 s1 s2 s3;
        network = load32 little n0 n1 n2 n3;
      },
      rest,
    )
read_global_header little _ = none

-- The fields that `open` swaps; the magic number, the zone and the accuracy stay as they were read.
unfoldable pub swap_global_header : PcapGlobalHeader → PcapGlobalHeader
unfolding maybe_swap16 maybe_swap32
swap_global_header h = record h {
  version_major = maybe_swap16 true h.version_major;
  version_minor = maybe_swap16 true h.version_minor;
  snaplen = maybe_swap32 true h.snaplen;
  network = maybe_swap32 true h.network;
}

unfoldable pub check_magic : PcapGlobalHeader → Bytes → Option PcapReader
unfolding swap_global_header
check_magic h rest =
    if h.magic_number == magic_native
    then some (record { rest = rest; global_header = h; needs_byte_swap = false })
    else if h.magic_number == magic_swapped
    then some (record { rest = rest; global_header = swap_global_header h; needs_byte_swap = true })
    else none

unfoldable pub check_header : Option (PcapGlobalHeader × Bytes) → Option PcapReader
unfolding check_magic
check_header none = none
check_header (some (h, rest)) = check_magic h rest

-- `open`: the file is `none` when it cannot be opened; `none` is the result false, on which every
-- caller gives the reader up.
unfoldable pub open_reader : Bool → Option Bytes → Option PcapReader
unfolding read_global_header check_header
open_reader little none = none
open_reader little (some file) = check_header (read_global_header little file)

-- `file_.read` of the 16 bytes of a packet header.
unfoldable pub read_packet_header : Bool → Bytes → Option (PcapPacketHeader × Bytes)
read_packet_header little
      (a0 ∷ a1 ∷ a2 ∷ a3 ∷ b0 ∷ b1 ∷ b2 ∷ b3 ∷ c0 ∷ c1 ∷ c2 ∷ c3 ∷ d0 ∷ d1 ∷ d2 ∷ d3 ∷ rest) =
    some (
      record {
        ts_sec = load32 little a0 a1 a2 a3;
        ts_usec = load32 little b0 b1 b2 b3;
        incl_len = load32 little c0 c1 c2 c3;
        orig_len = load32 little d0 d1 d2 d3;
      },
      rest,
    )
read_packet_header little _ = none

unfoldable pub swap_packet_header : Bool → PcapPacketHeader → PcapPacketHeader
unfolding maybe_swap32
swap_packet_header needs h = record {
  ts_sec = maybe_swap32 needs h.ts_sec;
  ts_usec = maybe_swap32 needs h.ts_usec;
  incl_len = maybe_swap32 needs h.incl_len;
  orig_len = maybe_swap32 needs h.orig_len;
}

-- The length test, and the read of the bytes of the packet.
unfoldable pub read_body : PcapReader → PcapPacketHeader → Bytes → Option (RawPacket × PcapReader)
read_body r h rest =
    if ltb r.global_header.snaplen h.incl_len || ltb 65535 h.incl_len
    then none
    else if ltb (length rest) h.incl_len
    then none
    else some (
      record { header = h; bytes = take h.incl_len rest },
      record r { rest = drop h.incl_len rest },
    )

unfoldable pub after_header :
    PcapReader → Option (PcapPacketHeader × Bytes) → Option (RawPacket × PcapReader)
unfolding swap_packet_header read_body
after_header r none = none
after_header r (some (h, rest)) = read_body r (swap_packet_header r.needs_byte_swap h) rest

-- `readNextPacket`; `none` is the result false, on which the loops of the callers end.
unfoldable pub read_next_packet : Bool → PcapReader → Option (RawPacket × PcapReader)
unfolding read_packet_header after_header
read_next_packet little r = after_header r (read_packet_header little r.rest)

-- The loop `while (reader.readNextPacket(raw))`, with the packets that its body gets in order.
unfoldable pub read_packets : ℕ → Bool → PcapReader → Result (List RawPacket)
unfolding read_next_packet
read_packets zero little r = err no_fuel
read_packets (suc fuel) little r = elim (read_next_packet little r) [
  | none ↦ ok []
  | some (raw, r') ↦ read_packets fuel little r' >>= λ more. ok (raw ∷ more)
]

-- A number in memory.
unfoldable pub store16 : Bool → ℕ → Bytes → Bytes
store16 true v rest = octet v 0 ∷ octet v 8 ∷ rest
store16 false v rest = octet v 8 ∷ octet v 0 ∷ rest

unfoldable pub store32 : Bool → ℕ → Bytes → Bytes
store32 true v rest = octet v 0 ∷ octet v 8 ∷ octet v 16 ∷ octet v 24 ∷ rest
store32 false v rest = octet v 24 ∷ octet v 16 ∷ octet v 8 ∷ octet v 0 ∷ rest

-- `output.write` of a global header as it lies in memory, in front of what is written later.
unfoldable pub write_header : Bool → PcapGlobalHeader → Bytes → Bytes
unfolding store16 store32
write_header little h rest = store32 little h.magic_number (
    store16 little h.version_major (
      store16 little h.version_minor (
        store32 little h.thiszone
          (store32 little h.sigfigs (store32 little h.snaplen (store32 little h.network rest))))))

-- The packet header that the writers make, and the bytes behind it.
unfoldable pub write_packet : Bool → ℕ → ℕ → Bytes → Bytes → Bytes
unfolding store32
write_packet little ts_sec ts_usec bytes rest = store32 little ts_sec (
    store32 little ts_usec (
      store32 little (length bytes % 2 ^ 32)
        (store32 little (length bytes % 2 ^ 32) (bytes ++ rest))))
