-- ===== src/Multi/Payload.antt =====
-- The payload of a packet of the multi-threaded program.
use deep_packet_analyzer.Base.{
  ℕ, ◌+◌, ◌-◌, ◌≤◌, ◌≡◌, inl, inr, refl, ap, sym, Bool, true, false, some, lt→ltb, length, arith,
  Bytes, IsBytes, ok, Returns, Holds-ok,
}
use deep_packet_analyzer.Pcap.Format.{RawPacket}
use deep_packet_analyzer.Packet.{ParsedPacket, parse}
use deep_packet_analyzer.Packet.Headers.{
  byte_at-get_or, transport_start, IsTransport, parse-IsLocated,
}
use deep_packet_analyzer.Engine.{is_skipped}
use deep_packet_analyzer.Engine.Job.{tuple_of, five_tuple-parse}
use deep_packet_analyzer.Multi.{Packet, skip_transport, place_payload, make_packet}

skip_transport-IsTransport :
    (p : Bytes) (parsed : ParsedPacket) (o : ℕ)
    → IsTransport p parsed o
    → skip_transport p parsed.has_tcp parsed.has_udp (transport_start p) ≡ ok o
unfolding skip_transport
skip_transport-IsTransport p parsed o (l, le, inl (t, s, e)) =
    ground (arith, byte_at-get_or p (transport_start p + 12) (omega (arith, s)))
skip_transport-IsTransport p parsed o (l, le, inr (t, u, e)) = ground arith

place_payload-IsTransport :
    (p : Bytes) (parsed : ParsedPacket) (o : ℕ)
    → IsTransport p parsed o
    → place_payload p parsed.has_tcp parsed.has_udp ≡ ok (o, some (length p - o))
unfolding place_payload
place_payload-IsTransport p parsed o h =
    let e = byte_at-get_or p 14 (omega (arith, h.0)) in
    let f = skip_transport-IsTransport p parsed o h in
    let g = lt→ltb 14 (length p) (omega (arith, h.0)) in rw (g, e, f) refl

-- The length of the payload is written, and the payload lies in the packet's bytes.
abbrev pub IsSized : Packet → Type 0
IsSized pkt =
    (size : ℕ) × (pkt.payload_length ≡ some size) × (pkt.payload_offset + size ≤ length pkt.bytes)

-- For a packet of bytes that the parser accepts and the reader does not skip, the packet of the
-- multi-threaded program is made without undefined behaviour: with the addresses and the protocol
-- of the packet's bytes, and with the parser's payload, whose length is written and which lies in
-- the packet.
pub make_packet-parse :
    (raw : RawPacket) (parsed : ParsedPacket) (id : ℕ) (little : Bool)
    → IsBytes raw.bytes
    → parse little raw ≡ ok (true, parsed)
    → is_skipped parsed ≡ false
    → Returns (make_packet raw parsed id) (λ pkt.
      IsSized pkt
      × (pkt.tuple ≡ tuple_of raw.bytes parsed)
      × (pkt.bytes ≡ raw.bytes)
      × (pkt.payload_length ≡ some parsed.payload_length))
unfolding make_packet is_skipped
make_packet-parse raw parsed id little b e k =
    let (a, (o, h, n, d)) = Holds-ok _ _ _ (parse-IsLocated little raw) e refl (ground arith) in
    let (l, t) = five_tuple-parse little raw parsed b e k in
    let f = place_payload-IsTransport raw.bytes parsed o h in
    (
      record {
        id = id;
        ts_sec = raw.header.ts_sec;
        ts_usec = raw.header.ts_usec;
        tuple = tuple_of raw.bytes parsed;
        bytes = raw.bytes;
        tcp_flags = parsed.tcp_flags;
        payload_offset = o;
        payload_length = some (length raw.bytes - o);
      },
      rw (t, f) refl,
      ((length raw.bytes - o, refl, omega (arith, h.1)), refl, refl, ap some (sym n)),
    )
