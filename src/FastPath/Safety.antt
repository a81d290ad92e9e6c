-- ===== src/FastPath/Safety.antt =====
-- A fast path ends with a decision on every packet whose payload lies within its bytes.
use deep_packet_analyzer.Base.{◌+◌, ◌≤◌, Option, length, arith, slice-le, Succeeds, Ends-Succeeds}
use deep_packet_analyzer.Connection.{Connection, PacketJob}
use deep_packet_analyzer.Extract.Tls.Safety.{tls_extract-Succeeds}
use deep_packet_analyzer.Extract.Http.Host.{http_extract-Succeeds}
use deep_packet_analyzer.Extract.Dns.Query.{extract_query-Succeeds}
use deep_packet_analyzer.Rules.{RuleManager}
use deep_packet_analyzer.FastPath.Inspect.{
  FastPath, payload, try_extract_sni, try_extract_http_host, inspect_rest, inspect_payload,
}
use deep_packet_analyzer.FastPath.{decide}

-- The payload that the job announces lies within its bytes.
abbrev pub IsJob : PacketJob → Type 0
IsJob job = job.payload_offset + job.payload_length ≤ length job.bytes

payload-Succeeds : (job : PacketJob) → IsJob job → Succeeds (payload job)
unfolding payload
payload-Succeeds job h = (_, slice-le job.bytes job.payload_offset job.payload_length h)

try_extract_sni-Succeeds :
    (job : PacketJob) (fp : FastPath) (c : Connection)
    → IsJob job
    → Succeeds (try_extract_sni job fp c)
try_extract_sni-Succeeds job fp c h =
    let (p, e) = payload-Succeeds job h in
    let (o, f) = tls_extract-Succeeds p in
    Ends-Succeeds (try_extract_sni job fp c) (unfold try_extract_sni in ground (arith, e, f))

try_extract_http_host-Succeeds :
    (job : PacketJob) (fp : FastPath) (c : Connection)
    → IsJob job
    → Succeeds (try_extract_http_host job fp c)
try_extract_http_host-Succeeds job fp c h =
    let (p, e) = payload-Succeeds job h in
    let (o, f) = http_extract-Succeeds p in
    Ends-Succeeds (try_extract_http_host job fp c)
      (unfold try_extract_http_host in ground (arith, e, f))

inspect_rest-Succeeds :
    (job : PacketJob) (fp : FastPath) (c : Connection)
    → IsJob job
    → Succeeds (inspect_rest job fp c)
inspect_rest-Succeeds job fp c h =
    let (p, e) = payload-Succeeds job h in
    let (o, f) = extract_query-Succeeds p in
    Ends-Succeeds (inspect_rest job fp c) (unfold inspect_rest in ground (arith, e, f))

pub inspect_payload-Succeeds :
    (job : PacketJob) (fp : FastPath) (c : Connection)
    → IsJob job
    → Succeeds (inspect_payload job fp c)
inspect_payload-Succeeds job fp c h =
    let (s, e) = try_extract_sni-Succeeds job fp c h in
    let (t, f) = try_extract_http_host-Succeeds job s.1 s.2 h in
    let (u, g) = inspect_rest-Succeeds job t.1 t.2 h in
    Ends-Succeeds (inspect_payload job fp c) (unfold inspect_payload in ground (arith, e, f, g))

pub decide-Succeeds :
    (rules : Option RuleManager) (job : PacketJob) (fp : FastPath) (c : Connection)
    → IsJob job
    → Succeeds (decide rules job fp c)
decide-Succeeds rules job fp c h =
    let (w, e) = inspect_payload-Succeeds job fp c h in
    Ends-Succeeds (decide rules job fp c) (unfold decide in ground (arith, e))
