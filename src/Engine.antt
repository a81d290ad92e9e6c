-- ===== src/Engine.antt =====
-- The engine, src/dpi_engine.cpp: the initialization, the reader, the output and the rule
-- interface. The threads and the queues between them are in Pipeline.antt.
pub mod Job
pub mod Reader
pub mod Api
pub mod Setup
pub mod Registry
use deep_packet_analyzer.Base.{
  ℕ, ◌+◌, ◌*◌, ◌-◌, ◌%◌, ◌^◌, Bool, true, false, not, ◌||◌, ◌&&◌, List, [], ◌∷◌, Option, none, some,
  ltb, ◌==◌, if◌then◌else◌, length, Bytes, byte_at, Result, ok, err, ◌>>=◌, equal,
}
use deep_packet_analyzer.Tuple.{FiveTuple}
use deep_packet_analyzer.App.{AppType, all_apps, app_type_to_string}
use deep_packet_analyzer.Ip.{parse_ip}
use deep_packet_analyzer.Connection.{PacketJob, PacketAction, drop, add64}
use deep_packet_analyzer.Pcap.Format.{RawPacket}
use deep_packet_analyzer.Packet.{ParsedPacket, parse, low_nibble, high_nibble}
use deep_packet_analyzer.Queue.{Queue, push}
use deep_packet_analyzer.Rules.{
  RuleManager, block_ip_text, unblock_ip_text, block_app, unblock_app, block_domain, unblock_domain,
}

-- The guard of the reader: only TCP and UDP over IP goes on.
unfoldable pub is_skipped : ParsedPacket → Bool
is_skipped parsed = not parsed.has_ip || (not parsed.has_tcp && not parsed.has_udp)

-- The five-tuple, with the addresses parsed back from the parser's text.
unfoldable pub five_tuple : ParsedPacket → Result FiveTuple
five_tuple parsed = do
  src ← parse_ip parsed.src_ip
  dst ← parse_ip parsed.dest_ip
  ok (record {
    src_ip = src;
    dst_ip = dst;
    src_port = parsed.src_port;
    dst_port = parsed.dest_port;
    protocol = parsed.protocol;
  })

-- The job before the offsets are calculated.
unfoldable pub new_job : RawPacket → ParsedPacket → ℕ → FiveTuple → PacketJob
new_job raw parsed id t = record {
  packet_id = id;
  tuple = t;
  bytes = raw.bytes;
  eth_offset = 0;
  ip_offset = 14;
  transport_offset = 0;
  payload_offset = 0;
  payload_length = 0;
  tcp_flags = parsed.tcp_flags;
  payload_data = none;
  ts_sec = raw.header.ts_sec;
  ts_usec = raw.header.ts_usec;
}

-- `payload_offset`, which stays 0 without a transport header.
unfoldable pub payload_start : Bytes → Bool → Bool → ℕ → Result ℕ
payload_start p has_tcp has_udp transport =
    if has_tcp && ltb transport (length p)
    then (do b ← byte_at p (transport + 12); ok (transport + high_nibble b * 4))
    else if has_udp
    then ok (transport + 8)
    else ok 0

unfoldable pub set_job_payload : PacketJob → ℕ → ℕ → PacketJob
set_job_payload job transport start =
    if ltb start (length job.bytes)
    then record job {
      transport_offset = transport;
      payload_offset = start;
      payload_length = length job.bytes - start;
      payload_data = some start;
    }
    else record job { transport_offset = transport; payload_offset = start }

unfoldable pub set_offsets : PacketJob → Bool → Bool → Result PacketJob
unfolding payload_start set_job_payload
set_offsets job has_tcp has_udp =
    if ltb 14 (length job.bytes)
    then (do
      b ← byte_at job.bytes 14
      start ← payload_start job.bytes has_tcp has_udp (14 + low_nibble b * 4)
      ok (set_job_payload job (14 + low_nibble b * 4) start))
    else ok job

-- `createPacketJob`.
unfoldable pub create_packet_job : RawPacket → ParsedPacket → ℕ → Result PacketJob
unfolding five_tuple new_job set_offsets
create_packet_job raw parsed id = do
  t ← five_tuple parsed
  set_offsets (new_job raw parsed id t) parsed.has_tcp parsed.has_udp

-- `DPIStats`, less the counters of connections, which no code writes.
pub record DpiStats : Type 0 where
  pub total_packets : ℕ
  pub total_bytes : ℕ
  pub forwarded_packets : ℕ
  pub forwarded_bytes : ℕ
  pub dropped_packets : ℕ
  pub dropped_bytes : ℕ
  pub tcp_packets : ℕ
  pub udp_packets : ℕ

-- The statistics of a packet that goes to a load balancer.
unfoldable pub count_read : Bool → Bool → ℕ → DpiStats → DpiStats
count_read has_tcp has_udp size st =
    let counted = record st {
      total_packets = add64 st.total_packets 1;
      total_bytes = add64 st.total_bytes size;
    } in
    if has_tcp
    then record counted { tcp_packets = add64 counted.tcp_packets 1 }
    else if has_udp
    then record counted { udp_packets = add64 counted.udp_packets 1 }
    else counted

-- What the reader thread keeps: the statistics, and `packet_id`, a uint32_t.
pub record ReaderState : Type 0 where
  pub stats : DpiStats
  pub packet_id : ℕ

-- A round of the reader's loop, with the job that it pushes, if any.
unfoldable pub read_round : Bool → ReaderState → RawPacket → Result (ReaderState × Option PacketJob)
unfolding is_skipped create_packet_job count_read
read_round little rd raw = do
  out ← parse little raw
  if not out.0 then ok (rd, none) else if is_skipped out.1 then ok (rd, none) else (do
    job ← create_packet_job raw out.1 rd.packet_id
    ok (
      record {
        stats = count_read out.1.has_tcp out.1.has_udp (length raw.bytes) rd.stats;
        packet_id = (rd.packet_id + 1) % 2 ^ 32;
      },
      some job,
    ))

abbrev pub add_job : Option PacketJob → List PacketJob → List PacketJob
add_job none jobs = jobs
add_job (some job) jobs = job ∷ jobs

-- `readerThreadFunc` on the packets of the capture, with the jobs in the order of the pushes.
unfoldable pub read_jobs :
    Bool → ReaderState → List RawPacket → Result (ReaderState × List PacketJob)
unfolding read_round
read_jobs little rd [] = ok (rd, [])
read_jobs little rd (raw ∷ raws) = do
  one ← read_round little rd raw
  more ← read_jobs little one.0 raws
  ok (more.0, add_job one.1 more.1)

-- `handleOutput`; `none` while the push to the output queue waits.
unfoldable pub handle_output :
    DpiStats → Queue PacketJob → PacketJob → PacketAction → Option (DpiStats × Queue PacketJob)
handle_output st out job action = elim action [
  | drop ↦ some (
    record st {
      dropped_packets = add64 st.dropped_packets 1;
      dropped_bytes = add64 st.dropped_bytes (length job.bytes);
    },
    out,
  )
  | _ ↦ elim (push out job) [
    | none ↦ none
    | some out' ↦ some (
      record st {
        forwarded_packets = add64 st.forwarded_packets 1;
        forwarded_bytes = add64 st.forwarded_bytes (length job.bytes);
      },
      out',
    )
  ]
]
