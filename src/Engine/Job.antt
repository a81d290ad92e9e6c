-- ===== src/Engine/Job.antt =====
-- What the reader hands to the load balancers agrees with what the parser found.
use deep_packet_analyzer.Base.{
  ℕ, ◌+◌, ◌*◌, ◌-◌, ◌^◌, ◌≤◌, ◌<◌, ◌≡◌, inl, inr, refl, ap, sym, lt→ltb, if◌then◌else◌, ◌∙◌, Bool,
  true, false, none, some, ltb, length, get_or, arith, Bytes, IsBytes, ok, Returns, Holds-ok, [],
  ◌∷◌, zero, suc,
}
use deep_packet_analyzer.Ip.{parse_ip}
use deep_packet_analyzer.Ip.RoundTrip.{parse_ip-ip_to_string}
use deep_packet_analyzer.Tuple.{FiveTuple}
use deep_packet_analyzer.Connection.{PacketJob}
use deep_packet_analyzer.FastPath.Safety.{IsJob}
use deep_packet_analyzer.Pcap.Format.{RawPacket}
use deep_packet_analyzer.Packet.{ParsedPacket, parse}
use deep_packet_analyzer.Packet.Order.{byte_order}
use deep_packet_analyzer.Packet.Headers.{
  byte_at-get_or, address_text, transport_start, IsTransport, IsAddressed, parse-IsLocated,
}
use deep_packet_analyzer.Engine.{
  is_skipped, five_tuple, new_job, payload_start, set_job_payload, set_offsets, create_packet_job,
}

-- The address in four bytes, the first one lowest.
abbrev pub address : Bytes → ℕ → ℕ
address p i =
    get_or p i 0
    + get_or p (i + 1) 0 * 2 ^ 8
    + get_or p (i + 2) 0 * 2 ^ 16
    + get_or p (i + 3) 0 * 2 ^ 24

get_or-IsBytes : (p : Bytes) (i : ℕ) → IsBytes p → get_or p i 0 < 256
get_or-IsBytes [] i h = omega arith
get_or-IsBytes (x ∷ p) zero h = h.0
get_or-IsBytes (x ∷ p) (suc i) h = get_or-IsBytes p i h.1

parse_ip-address_text :
    (little : Bool) (p : Bytes) (i : ℕ)
    → IsBytes p
    → parse_ip (address_text little p i) ≡ ok (address p i)
parse_ip-address_text little p i h =
    let a = get_or-IsBytes p i h in
    let b = get_or-IsBytes p (i + 1) h in
    let c = get_or-IsBytes p (i + 2) h in
    let d = get_or-IsBytes p (i + 3) h in
    ap parse_ip
      (byte_order little (get_or p i 0) (get_or p (i + 1) 0) (get_or p (i + 2) 0)
        (get_or p (i + 3) 0) a b c d).2
    ∙ parse_ip-ip_to_string (address p i) (omega (arith, a, b, c, d))

abbrev pub tuple_of : Bytes → ParsedPacket → FiveTuple
tuple_of p parsed = record {
  src_ip = address p 26;
  dst_ip = address p 30;
  src_port = parsed.src_port;
  dst_port = parsed.dest_port;
  protocol = get_or p 23 0;
}

pub five_tuple-IsAddressed :
    (little : Bool) (p : Bytes) (parsed : ParsedPacket)
    → IsBytes p
    → IsAddressed little p parsed
    → five_tuple parsed ≡ ok (tuple_of p parsed)
unfolding five_tuple
five_tuple-IsAddressed little p parsed h a =
    let e = ap parse_ip a.0 ∙ parse_ip-address_text little p 26 h in
    let f = ap parse_ip a.1 ∙ parse_ip-address_text little p 30 h in rw (e, f, a.2) refl

payload_start-IsTransport :
    (p : Bytes) (parsed : ParsedPacket) (o : ℕ)
    → IsTransport p parsed o
    → payload_start p parsed.has_tcp parsed.has_udp (transport_start p) ≡ ok o
unfolding payload_start
payload_start-IsTransport p parsed o (l, le, inl (t, s, e)) =
    ground (arith, byte_at-get_or p (transport_start p + 12) (omega (arith, s)))
payload_start-IsTransport p parsed o (l, le, inr (t, u, e)) = ground arith

-- The tuple of a packet that the reader does not skip, and what the packet holds at least.
pub five_tuple-parse :
    (little : Bool) (raw : RawPacket) (parsed : ParsedPacket)
    → IsBytes raw.bytes
    → parse little raw ≡ ok (true, parsed)
    → is_skipped parsed ≡ false
    → (34 ≤ length raw.bytes) × (five_tuple parsed ≡ ok (tuple_of raw.bytes parsed))
unfolding is_skipped
five_tuple-parse little raw parsed b e k =
    let (a, (o, h, n, d)) = Holds-ok _ _ _ (parse-IsLocated little raw) e refl (ground arith) in
    (h.0, five_tuple-IsAddressed little raw.bytes parsed b a)

-- What the job says of the payload.
abbrev IsPayloadAt : Bytes → ℕ → PacketJob → Type 0
IsPayloadAt p o job =
    IsJob job
    × (job.bytes ≡ p)
    × (job.payload_length ≡ length p - o)
    × (job.payload_data ≡ (if ltb o (length p) then some o else none))

set_offsets-IsPayloadAt :
    (job : PacketJob) (parsed : ParsedPacket) (o : ℕ)
    → job.payload_length ≡ 0
    → job.payload_data ≡ none
    → IsTransport job.bytes parsed o
    → Returns (set_offsets job parsed.has_tcp parsed.has_udp) (λ out.
      IsPayloadAt job.bytes o out × (out.tuple ≡ job.tuple) × (out.packet_id ≡ job.packet_id))
unfolding set_offsets set_job_payload
set_offsets-IsPayloadAt job parsed o n d h =
    let e = byte_at-get_or job.bytes 14 (omega (arith, h.0)) in
    let f = payload_start-IsTransport job.bytes parsed o h in
    let g = lt→ltb 14 (length job.bytes) (omega (arith, h.0)) in
    (set_job_payload job (transport_start job.bytes) o, rw (g, e, f) refl, ground (arith, h.1))

pub create_packet_job-parse :
    (little : Bool) (raw : RawPacket) (parsed : ParsedPacket) (id : ℕ)
    → IsBytes raw.bytes
    → parse little raw ≡ ok (true, parsed)
    → is_skipped parsed ≡ false
    → Returns (create_packet_job raw parsed id) (λ job.
      IsJob job
      × (job.tuple ≡ tuple_of raw.bytes parsed)
      × (job.bytes ≡ raw.bytes)
      × (job.packet_id ≡ id)
      × (job.payload_length ≡ parsed.payload_length)
      × (job.payload_data ≡ parsed.payload_data))
unfolding create_packet_job new_job is_skipped
create_packet_job-parse little raw parsed id b e k =
    let (a, (o, h, n, d)) = Holds-ok _ _ _ (parse-IsLocated little raw) e refl (ground arith) in
    let t = five_tuple-IsAddressed little raw.bytes parsed b a in
    let (job, f, ((j, w, l, q), u, v)) =
      set_offsets-IsPayloadAt (new_job raw parsed id (tuple_of raw.bytes parsed)) parsed o refl refl
        h in
    (job, rw t f, (j, u, w, v, l ∙ sym n, q ∙ sym d))
