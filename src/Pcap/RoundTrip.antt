-- ===== src/Pcap/RoundTrip.antt =====
-- A capture that was written on a machine of either byte order is read whole.
use deep_packet_analyzer.Base.{
  ℕ, suc, ◌%◌, ◌^◌, ◌≤◌, ◌<◌, ◌≡◌, refl, ap, ap₂, ◌∙◌, Bool, true, false, List, [], ◌∷◌, ◌++◌, none,
  some, length, length-append, take-length-append, drop-length-append, All, Bytes, arith, ok,
}
use deep_packet_analyzer.Pcap.Format.{PcapGlobalHeader, PcapPacketHeader, RawPacket}
use deep_packet_analyzer.Pcap.{
  PcapReader, magic_native, maybe_swap16, maybe_swap32, read_global_header, swap_global_header,
  check_magic, check_header, open_reader, read_packet_header, swap_packet_header, read_body,
  after_header, read_next_packet, read_packets, store32, write_header, write_packet,
}
use deep_packet_analyzer.Packet.Order.{load32}
use deep_packet_analyzer.Pcap.Order.{
  differ, reload16, reload32, maybe_swap16-reload16, maybe_swap32-reload32,
}

-- The packets of a capture, one behind the other.
unfoldable pub write_packets : Bool → List RawPacket → Bytes
unfolding write_packet
write_packets order [] = []
write_packets order (p ∷ ps) =
    write_packet order p.header.ts_sec p.header.ts_usec p.bytes (write_packets order ps)

-- A packet that a capture with this limit can hold.
pub record IsCaptured (snaplen : ℕ) (p : RawPacket) : Type 0 where
  pub sec : p.header.ts_sec < 2 ^ 32
  pub usec : p.header.ts_usec < 2 ^ 32
  pub incl : p.header.incl_len ≡ length p.bytes
  pub orig : p.header.orig_len ≡ length p.bytes
  pub short : length p.bytes ≤ 65535
  pub snapped : length p.bytes ≤ snaplen

-- A packet header as another machine has it in memory.
abbrev pub reload_header : Bool → Bool → PcapPacketHeader → PcapPacketHeader
reload_header order little h = record {
  ts_sec = reload32 order little h.ts_sec;
  ts_usec = reload32 order little h.ts_usec;
  incl_len = reload32 order little h.incl_len;
  orig_len = reload32 order little h.orig_len;
}

pub read_packet_header-store32 :
    (order little : Bool) (a b c d : ℕ) (rest : Bytes)
    → read_packet_header little
        (store32 order a (store32 order b (store32 order c (store32 order d rest))))
      ≡ some (
        record {
          ts_sec = reload32 order little a;
          ts_usec = reload32 order little b;
          incl_len = reload32 order little c;
          orig_len = reload32 order little d;
        },
        rest,
      )
unfolding read_packet_header store32
read_packet_header-store32 true little a b c d rest = refl
read_packet_header-store32 false little a b c d rest = refl

read_body-captured :
    (r : PcapReader) (p : RawPacket) (rest : Bytes)
    → IsCaptured r.global_header.snaplen p
    → read_body r p.header (p.bytes ++ rest) ≡ some (p, record r { rest = rest })
unfolding read_body
read_body-captured r p rest h = ground (
  arith,
  h.incl,
  h.short,
  h.snapped,
  length-append p.bytes rest,
  take-length-append p.bytes rest,
  drop-length-append p.bytes rest,
)

swap_packet_header-reload :
    (order little : Bool) (h : PcapPacketHeader)
    → h.ts_sec < 2 ^ 32
    → h.ts_usec < 2 ^ 32
    → h.incl_len < 2 ^ 32
    → h.orig_len < 2 ^ 32
    → swap_packet_header (differ order little) (reload_header order little h) ≡ h
unfolding swap_packet_header
swap_packet_header-reload order little h a b c d = λ i. record {
  ts_sec = maybe_swap32-reload32 order little h.ts_sec a i;
  ts_usec = maybe_swap32-reload32 order little h.ts_usec b i;
  incl_len = maybe_swap32-reload32 order little h.incl_len c i;
  orig_len = maybe_swap32-reload32 order little h.orig_len d i;
}

-- One packet is read as it was written, and what follows is left in the file.
read_next_packet-write_packet :
    (order little : Bool) (r : PcapReader) (p : RawPacket) (rest : Bytes)
    → IsCaptured r.global_header.snaplen p
    → r.needs_byte_swap ≡ differ order little
    → r.rest ≡ write_packet order p.header.ts_sec p.header.ts_usec p.bytes rest
    → read_next_packet little r ≡ some (p, record r { rest = rest })
unfolding read_next_packet write_packet after_header
read_next_packet-write_packet order little r p rest h d e =
    let a : length p.bytes % 2 ^ 32 ≡ p.header.incl_len = omega (arith, h.incl, h.short) in
    let b : length p.bytes % 2 ^ 32 ≡ p.header.orig_len = omega (arith, h.orig, h.short) in
    ap (λ file. after_header r (read_packet_header little file))
      (e
        ∙ ap₂
            (λ n m. store32 order p.header.ts_sec (
              store32 order p.header.ts_usec (store32 order n (store32 order m (p.bytes ++ rest)))))
            a b)
    ∙ ap (after_header r) (
        read_packet_header-store32 order little p.header.ts_sec p.header.ts_usec p.header.incl_len
          p.header.orig_len (p.bytes ++ rest))
    ∙ ap
        (λ needs.
          read_body r (swap_packet_header needs (reload_header order little p.header))
            (p.bytes ++ rest))
        d
    ∙ ap (λ q. read_body r q (p.bytes ++ rest))
        (swap_packet_header-reload order little p.header h.sec h.usec
          (omega (arith, h.incl, h.short)) (omega (arith, h.orig, h.short)))
    ∙ read_body-captured r p rest h

IsNone-after : (little : Bool) (r : PcapReader) → r.rest ≡ [] → read_next_packet little r ≡ none
unfolding read_next_packet read_packet_header after_header
IsNone-after little r e = ap (λ file. after_header r (read_packet_header little file)) e

pub read_packets-write_packets :
    (order little : Bool) (ps : List RawPacket) (r : PcapReader)
    → All (IsCaptured r.global_header.snaplen) ps
    → r.needs_byte_swap ≡ differ order little
    → r.rest ≡ write_packets order ps
    → read_packets (suc (length ps)) little r ≡ ok ps
unfolding read_packets write_packets
read_packets-write_packets order little [] r h d e = rw (IsNone-after little r e, read_packets) refl
read_packets-write_packets order little (p ∷ ps) r h d e =
    let next = read_next_packet-write_packet order little r p (write_packets order ps) h.0 d e in
    rw (next, read_packets)
      (rw
        (read_packets-write_packets order little ps (record r { rest = write_packets order ps }) h.1
          d refl)
        refl)

-- A header as `open` leaves it: every field but the zone and the accuracy in the machine's order.
abbrev pub opened_header : Bool → Bool → PcapGlobalHeader → PcapGlobalHeader
opened_header order little h = record h {
  magic_number = reload32 order little magic_native;
  thiszone = reload32 order little h.thiszone;
  sigfigs = reload32 order little h.sigfigs;
}

-- A header of the format, its fields in range.
pub record IsHeader (h : PcapGlobalHeader) : Type 0 where
  pub magic : h.magic_number ≡ magic_native
  pub major : h.version_major < 2 ^ 16
  pub minor : h.version_minor < 2 ^ 16
  pub snap : h.snaplen < 2 ^ 32
  pub link : h.network < 2 ^ 32

abbrev pub reload_global : Bool → Bool → PcapGlobalHeader → PcapGlobalHeader
reload_global order little h = record {
  magic_number = reload32 order little h.magic_number;
  version_major = reload16 order little h.version_major;
  version_minor = reload16 order little h.version_minor;
  thiszone = reload32 order little h.thiszone;
  sigfigs = reload32 order little h.sigfigs;
  snaplen = reload32 order little h.snaplen;
  network = reload32 order little h.network;
}

pub read_global_header-write_header :
    (order little : Bool) (h : PcapGlobalHeader) (rest : Bytes)
    → read_global_header little (write_header order h rest)
      ≡ some (reload_global order little h, rest)
unfolding read_global_header write_header
read_global_header-write_header true little h rest = refl
read_global_header-write_header false little h rest = refl

-- A header with the magic number as it was loaded, and the fields that `open` swaps.
abbrev with_magic : Bool → Bool → ℕ → PcapGlobalHeader → PcapGlobalHeader
with_magic order little magic h = record (reload_global order little h) { magic_number = magic }

swapped-opened :
    (order little : Bool) (h : PcapGlobalHeader)
    → IsHeader h
    → record (with_magic order little (reload32 order little magic_native) h) {
      version_major = maybe_swap16 (differ order little) (reload16 order little h.version_major);
      version_minor = maybe_swap16 (differ order little) (reload16 order little h.version_minor);
      snaplen = maybe_swap32 (differ order little) (reload32 order little h.snaplen);
      network = maybe_swap32 (differ order little) (reload32 order little h.network);
    }
      ≡ opened_header order little h
swapped-opened order little h v = λ i. record (opened_header order little h) {
  version_major = maybe_swap16-reload16 order little h.version_major v.major i;
  version_minor = maybe_swap16-reload16 order little h.version_minor v.minor i;
  snaplen = maybe_swap32-reload32 order little h.snaplen v.snap i;
  network = maybe_swap32-reload32 order little h.network v.link i;
}

check_magic-opened :
    (order little : Bool) (h : PcapGlobalHeader) (rest : Bytes)
    → IsHeader h
    → check_magic (with_magic order little (reload32 order little magic_native) h) rest
      ≡ some (record {
        rest = rest;
        global_header = opened_header order little h;
        needs_byte_swap = differ order little;
      })
unfolding check_magic swap_global_header load32 maybe_swap16 maybe_swap32
check_magic-opened true true h rest v =
    ap (λ g. some (record { rest = rest; global_header = g; needs_byte_swap = false }))
      (swapped-opened true true h v)
check_magic-opened true false h rest v =
    ap (λ g. some (record { rest = rest; global_header = g; needs_byte_swap = true }))
      (swapped-opened true false h v)
check_magic-opened false true h rest v =
    ap (λ g. some (record { rest = rest; global_header = g; needs_byte_swap = true }))
      (swapped-opened false true h v)
check_magic-opened false false h rest v =
    ap (λ g. some (record { rest = rest; global_header = g; needs_byte_swap = false }))
      (swapped-opened false false h v)

-- Opening a capture that was written on a machine of either order.
pub open_reader-write_header :
    (order little : Bool) (h : PcapGlobalHeader) (rest : Bytes)
    → IsHeader h
    → open_reader little (some (write_header order h rest))
      ≡ some (record {
        rest = rest;
        global_header = opened_header order little h;
        needs_byte_swap = differ order little;
      })
unfolding open_reader check_header
open_reader-write_header order little h rest v =
    ap check_header (read_global_header-write_header order little h rest)
    ∙ ap (λ m. check_magic (with_magic order little (reload32 order little m) h) rest) v.magic
    ∙ check_magic-opened order little h rest v

-- A capture written on a machine of either byte order is opened with its version, its limit and
-- its link type, and its packets are read in order, with their times and bytes, to the last.
pub read_packets-capture :
    (order little : Bool) (h : PcapGlobalHeader) (ps : List RawPacket)
    → IsHeader h
    → All (IsCaptured h.snaplen) ps
    → (r : PcapReader) × (open_reader little (some (write_header order h (write_packets order ps)))
        ≡ some r)
      × (r.global_header.version_major ≡ h.version_major)
      × (r.global_header.version_minor ≡ h.version_minor)
      × (r.global_header.snaplen ≡ h.snaplen)
      × (r.global_header.network ≡ h.network)
      × (read_packets (suc (length ps)) little r ≡ ok ps)
read_packets-capture order little h ps v k = (
  record {
    rest = write_packets order ps;
    global_header = opened_header order little h;
    needs_byte_swap = differ order little;
  },
  open_reader-write_header order little h (write_packets order ps) v,
  refl,
  refl,
  refl,
  refl,
  read_packets-write_packets order little ps _ k refl refl,
)
