-- ===== src/Multi.antt =====
-- The multi-threaded program in one file, src/dpi_mt.cpp: how its reader makes a packet, and what
-- a fast path does with it. Its rules, its queue and its choice of a thread are written as those
-- of Simple.antt, Queue.antt and Balance.antt.
pub mod Payload
pub mod Label
pub mod Round
use deep_packet_analyzer.Base.{
  ℕ, ◌+◌, ◌*◌, ◌-◌, ◌%◌, ◌^◌, Bool, true, false, not, ◌||◌, ◌&&◌, List, [], ◌∷◌, Option, none, some,
  ltb, ◌==◌, if◌then◌else◌, length, Bytes, byte_at, slice, equal, Result, ok, err, ◌>>=◌,
  indeterminate,
}
use deep_packet_analyzer.Tuple.{FiveTuple}
use deep_packet_analyzer.App.{AppType, unknown, http, https, dns, sni_to_app_type}
use deep_packet_analyzer.Rules.{is_empty}
use deep_packet_analyzer.Connection.{add64}
use deep_packet_analyzer.Extract.Tls
use deep_packet_analyzer.Extract.Http
use deep_packet_analyzer.Pcap.Format.{RawPacket}
use deep_packet_analyzer.Packet.{ParsedPacket, low_nibble, high_nibble}
use deep_packet_analyzer.Engine.{five_tuple}
use deep_packet_analyzer.Simple.{BlockingRules, is_blocked, count_app}
use deep_packet_analyzer.Simple.Table.{fetch, put}

-- `payload_length` is `none` while it has not been written.
pub record Packet : Type 0 where
  pub id : ℕ
  pub ts_sec : ℕ
  pub ts_usec : ℕ
  pub tuple : FiveTuple
  pub bytes : Bytes
  pub tcp_flags : ℕ
  pub payload_offset : ℕ
  pub payload_length : Option ℕ

-- `payload_offset`, from the offset behind the IP header on.
unfoldable pub skip_transport : Bytes → Bool → Bool → ℕ → Result ℕ
skip_transport p has_tcp has_udp offset =
    if has_tcp && ltb (offset + 12) (length p)
    then (do b ← byte_at p (offset + 12); ok (offset + high_nibble b * 4))
    else if has_udp
    then ok (offset + 8)
    else ok offset

unfoldable pub place_payload : Bytes → Bool → Bool → Result (ℕ × Option ℕ)
unfolding skip_transport
place_payload p has_tcp has_udp =
    if ltb 14 (length p)
    then (do
      b ← byte_at p 14
      offset ← skip_transport p has_tcp has_udp (14 + low_nibble b * 4)
      ok (offset, some (length p - offset)))
    else ok (14, none)

-- The packet that the reader pushes.
unfoldable pub make_packet : RawPacket → ParsedPacket → ℕ → Result Packet
unfolding place_payload
make_packet raw parsed id = do
  t ← five_tuple parsed
  at ← place_payload raw.bytes parsed.has_tcp parsed.has_udp
  ok (record {
    id = id;
    ts_sec = raw.header.ts_sec;
    ts_usec = raw.header.ts_usec;
    tuple = t;
    bytes = raw.bytes;
    tcp_flags = parsed.tcp_flags;
    payload_offset = at.0;
    payload_length = at.1;
  })

pub record FlowEntry : Type 0 where
  pub tuple : FiveTuple
  pub app_type : AppType
  pub sni : Bytes
  pub packets : ℕ
  pub bytes : ℕ
  pub blocked : Bool
  pub classified : Bool

-- `flows_[tuple]` on a new key, with the tuple that is written at the first packet.
abbrev pub new_entry : FiveTuple → FlowEntry
new_entry t = record {
  tuple = t;
  app_type = unknown;
  sni = [];
  packets = 0;
  bytes = 0;
  blocked = false;
  classified = false;
}

-- An extractor on a payload of more than `least` bytes.
unfoldable pub name_in : (Bytes → Result (Option Bytes)) → ℕ → Packet → ℕ → Result (Option Bytes)
name_in extract least pkt size =
    if ltb least size
    then (do payload ← slice pkt.bytes pkt.payload_offset size; extract payload)
    else ok none

-- The same where the port is `port`: reading a length that was not written is undefined.
unfoldable pub try_name : (Bytes → Result (Option Bytes)) → ℕ → ℕ → Packet → Result (Option Bytes)
unfolding name_in
try_name extract port least pkt =
    if pkt.tuple.dst_port == port
    then elim pkt.payload_length [
      | none ↦ err indeterminate
      | some size ↦ name_in extract least pkt size
    ]
    else ok none

abbrev pub set_classified : FlowEntry → Bytes → FlowEntry
set_classified f name = record f { sni = name; app_type = sni_to_app_type name; classified = true }

-- The end of `classifyFlow`, by the ports.
unfoldable pub classify_port : Packet → FlowEntry → FlowEntry
classify_port pkt f =
    if pkt.tuple.dst_port == 53 || pkt.tuple.src_port == 53
    then record f { app_type = dns; classified = true }
    else if pkt.tuple.dst_port == 443
    then record f { app_type = https }
    else if pkt.tuple.dst_port == 80
    then record f { app_type = http }
    else f

-- A name ends `classifyFlow`.
unfoldable pub classify_or : FlowEntry → Option Bytes → Result FlowEntry → Result FlowEntry
classify_or f none rest = rest
classify_or f (some name) rest = ok (set_classified f name)

unfoldable pub classify_flow : Packet → FlowEntry → Result FlowEntry
unfolding try_name classify_or classify_port
classify_flow pkt f = do
  sni ← try_name Tls.extract 443 5 pkt
  host ← (elim sni [ none ↦ try_name Http.extract 80 10 pkt | some name ↦ ok none ])
  classify_or f sni (classify_or f host (ok (classify_port pkt f)))

unfoldable pub count_entry : Packet → FlowEntry → FlowEntry
count_entry pkt f =
    let f' = if f.packets == 0 then record f { tuple = pkt.tuple } else f in
    record f' { packets = add64 f'.packets 1; bytes = add64 f'.bytes (length pkt.bytes) }

unfoldable pub check_entry : BlockingRules → Packet → FlowEntry → FlowEntry
check_entry rules pkt f =
    if f.blocked
    then f
    else record f { blocked = is_blocked rules pkt.tuple.src_ip f.app_type f.sni }

unfoldable pub classify_new : Packet → FlowEntry → Result FlowEntry
unfolding classify_flow
classify_new pkt f = if f.classified then ok f else classify_flow pkt f

-- The entry of the flow after a packet.
unfoldable pub update_entry : BlockingRules → Packet → FlowEntry → Result FlowEntry
unfolding count_entry classify_new check_entry
update_entry rules pkt f = do g ← classify_new pkt (count_entry pkt f); ok (check_entry rules pkt g)

-- `Stats`, which all threads share.
pub record Stats : Type 0 where
  pub total_packets : ℕ
  pub total_bytes : ℕ
  pub forwarded : ℕ
  pub dropped : ℕ
  pub tcp_packets : ℕ
  pub udp_packets : ℕ
  pub app_counts : List (AppType × ℕ)
  pub detected_snis : List (Bytes × AppType)

-- `detected_snis[sni] = app`.
unfoldable pub set_sni : Bytes → AppType → List (Bytes × AppType) → List (Bytes × AppType)
set_sni sni app [] = (sni, app) ∷ []
set_sni sni app ((s, a) ∷ rest) =
    if equal s sni then (s, app) ∷ rest else (s, a) ∷ set_sni sni app rest

unfoldable pub record_app : AppType → Bytes → Stats → Stats
unfolding set_sni
record_app app sni st = record st {
  app_counts = count_app app st.app_counts;
  detected_snis = if is_empty sni then st.detected_snis else set_sni sni app st.detected_snis;
}

-- A fast path, with the shared statistics.
pub record FastPath : Type 0 where
  pub flows : List (FiveTuple × FlowEntry)
  pub processed : ℕ
  pub stats : Stats

unfoldable pub entry_of : FiveTuple → List (FiveTuple × FlowEntry) → FlowEntry
entry_of t flows = elim (fetch t flows) [ none ↦ new_entry t | some f ↦ f ]

unfoldable pub count_verdict : Bool → Stats → Stats
count_verdict blocked st =
    if blocked
    then record st { dropped = add64 st.dropped 1 }
    else record st { forwarded = add64 st.forwarded 1 }

-- An iteration of `FastPath::run` that got a packet, with what it pushes to the output.
unfoldable pub run_packet : BlockingRules → Packet → FastPath → Result (FastPath × Option Packet)
unfolding entry_of update_entry record_app count_verdict
run_packet rules pkt fp = do
  f ← update_entry rules pkt (entry_of pkt.tuple fp.flows)
  ok (
    record {
      flows = put pkt.tuple f fp.flows;
      processed = add64 fp.processed 1;
      stats = count_verdict f.blocked (record_app f.app_type f.sni fp.stats);
    },
    if f.blocked then none else some pkt,
  )

-- The statistics of the reader.
unfoldable pub count_packet : Bool → Bool → ℕ → Stats → Stats
count_packet has_tcp has_udp size st =
    let counted = record st {
      total_packets = add64 st.total_packets 1;
      total_bytes = add64 st.total_bytes size;
    } in
    if has_tcp
    then record counted { tcp_packets = add64 counted.tcp_packets 1 }
    else if has_udp
    then record counted { udp_packets = add64 counted.udp_packets 1 }
    else counted
