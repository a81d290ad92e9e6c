-- ===== src/FastPath/Inspect.antt =====
-- The state of a fast path, and `inspectPayload` with the two functions it tries first.
use deep_packet_analyzer.Base.{
  ℕ, Bool, true, false, not, ◌&&◌, ◌||◌, Option, none, some, ltb, ◌==◌, if◌then◌else◌, length,
  Bytes, [], slice, Result, ok, ◌>>=◌,
}
use deep_packet_analyzer.App.{AppType, unknown, http, https, dns, app_eq, sni_to_app_type}
use deep_packet_analyzer.Connection.{Connection, PacketJob, add64}
use deep_packet_analyzer.Tracker.{Tracker, classify_connection}
use deep_packet_analyzer.Extract.Dns.{extract_query}
use deep_packet_analyzer.Extract.Tls
use deep_packet_analyzer.Extract.Http

pub record FastPath : Type 0 where
  pub tracker : Tracker
  pub packets_processed : ℕ
  pub packets_forwarded : ℕ
  pub packets_dropped : ℕ
  pub sni_extractions : ℕ
  pub classification_hits : ℕ

-- The bytes that the pointer `payload` and `payload_length` promise to an extractor: all of them
-- have to lie within the packet.
unfoldable pub payload : PacketJob → Result Bytes
payload job = slice job.bytes job.payload_offset job.payload_length

-- `classifyConnection` on the tracker of the processor.
unfoldable pub classify : FastPath → Connection → AppType → Bytes → FastPath × Connection
classify fp c app name = (
  record fp { tracker = (classify_connection fp.tracker c app name).0 },
  (classify_connection fp.tracker c app name).1,
)

-- `classification_hits_` counts a name that says more than the protocol does.
unfoldable pub count_hit : AppType → AppType → FastPath → FastPath
count_hit plain app fp =
    if app_eq app unknown || app_eq app plain
    then fp
    else record fp { classification_hits = add64 fp.classification_hits 1 }

-- A name was found: whether to go on, and the state.
unfoldable pub classify_sni : FastPath → Connection → Option Bytes → Bool × FastPath × Connection
unfolding classify count_hit
classify_sni fp c none = (false, fp, c)
classify_sni fp c (some sni) =
    let app = sni_to_app_type sni in
    let seen = record fp { sni_extractions = add64 fp.sni_extractions 1 } in
    (true, count_hit https app (classify seen c app sni).0, (classify seen c app sni).1)

unfoldable pub classify_host : FastPath → Connection → Option Bytes → Bool × FastPath × Connection
unfolding classify count_hit
classify_host fp c none = (false, fp, c)
classify_host fp c (some host) =
    let app = sni_to_app_type host in
    (true, count_hit http app (classify fp c app host).0, (classify fp c app host).1)

abbrev pub has_payload : PacketJob → Bool
has_payload job = ltb job.payload_offset (length job.bytes) && ltb 0 job.payload_length

unfoldable pub try_extract_sni :
    PacketJob → FastPath → Connection → Result (Bool × FastPath × Connection)
unfolding classify_sni payload
try_extract_sni job fp c =
    if not (job.tuple.dst_port == 443) && ltb job.payload_length 50
    then ok (false, fp, c)
    else if not (has_payload job)
    then ok (false, fp, c)
    else (do p ← payload job; sni ← Tls.extract p; ok (classify_sni fp c sni))

unfoldable pub try_extract_http_host :
    PacketJob → FastPath → Connection → Result (Bool × FastPath × Connection)
unfolding classify_host payload
try_extract_http_host job fp c =
    if not (job.tuple.dst_port == 80)
    then ok (false, fp, c)
    else if not (has_payload job)
    then ok (false, fp, c)
    else (do p ← payload job; host ← Http.extract p; ok (classify_host fp c host))

-- The fallback by the port of the destination.
unfoldable pub classify_port : PacketJob → FastPath → Connection → FastPath × Connection
unfolding classify
classify_port job fp c =
    if job.tuple.dst_port == 80
    then classify fp c http []
    else if job.tuple.dst_port == 443
    then classify fp c https []
    else (fp, c)

unfoldable pub classify_query :
    PacketJob → FastPath → Connection → Option Bytes → FastPath × Connection
unfolding classify_port classify
classify_query job fp c none = classify_port job fp c
classify_query job fp c (some domain) = classify fp c dns domain

unfoldable pub inspect_rest : PacketJob → FastPath → Connection → Result (FastPath × Connection)
unfolding classify_query classify_port payload
inspect_rest job fp c =
    if job.tuple.dst_port == 53 || job.tuple.src_port == 53
    then (do p ← payload job; domain ← extract_query p; ok (classify_query job fp c domain))
    else ok (classify_port job fp c)

unfoldable pub inspect_payload : PacketJob → FastPath → Connection → Result (FastPath × Connection)
unfolding try_extract_sni try_extract_http_host inspect_rest
inspect_payload job fp c = if not (has_payload job) then ok (fp, c) else (do
  s ← try_extract_sni job fp c
  if s.0 then ok (s.1, s.2) else (do
    h ← try_extract_http_host job s.1 s.2
    if h.0 then ok (h.1, h.2) else inspect_rest job h.1 h.2))
