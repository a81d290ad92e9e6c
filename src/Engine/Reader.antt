-- ===== src/Engine/Reader.antt =====
-- The reader thread: which packets of a capture become jobs, and in which order.
use deep_packet_analyzer.Base.{
  ℕ, ◌+◌, ◌%◌, ◌^◌, ◌<◌, ◌≡◌, inl, inr, refl, ap, ap₂, subst, sym, ◌∙◌, Bool, true, false, not,
  List, [], ◌∷◌, Option, none, some, map, if◌then◌else◌, length, arith, Bytes, IsBytes, All, Result,
  ok, err, Returns, Bool-cases,
}
use deep_packet_analyzer.Connection.{PacketJob, add64}
use deep_packet_analyzer.FastPath.Safety.{IsJob}
use deep_packet_analyzer.Pcap.Format.{RawPacket}
use deep_packet_analyzer.Packet.{ParsedPacket, parse}
use deep_packet_analyzer.Packet.Safety.{parse-Returns}
use deep_packet_analyzer.Engine.{
  is_skipped, count_read, DpiStats, ReaderState, read_round, add_job, read_jobs,
}
use deep_packet_analyzer.Engine.Job.{create_packet_job-parse}

-- The packets that the reader passes on.
abbrev accepts : Result (Bool × ParsedPacket) → Bool
accepts (ok out) = if out.0 then not (is_skipped out.1) else false
accepts (err e) = false

abbrev pub is_accepted : Bool → RawPacket → Bool
is_accepted little raw = accepts (parse little raw)

pub is_accepted_lem :
    (little : Bool) (raw : RawPacket) (out : Bool × ParsedPacket)
    → parse little raw ≡ ok out
    → is_accepted little raw ≡ (if out.0 then not (is_skipped out.1) else false)
is_accepted_lem little raw out e = ap accepts e

pub accepted_bytes : Bool → List RawPacket → List Bytes
accepted_bytes little [] = []
accepted_bytes little (raw ∷ raws) =
    let rest = accepted_bytes little raws in
    if is_accepted little raw then raw.bytes ∷ rest else rest

-- Jobs with consecutive numbers, counted as a uint32_t.
abbrev pub IsNumbered : ℕ → List PacketJob → Type 0
IsNumbered id [] = Unit
IsNumbered id (job ∷ jobs) = (job.packet_id ≡ id) × IsNumbered ((id + 1) % 2 ^ 32) jobs

count_read-total :
    (has_tcp has_udp : Bool) (size : ℕ) (st : DpiStats)
    → (count_read has_tcp has_udp size st).total_packets ≡ add64 st.total_packets 1
unfolding count_read
count_read-total has_tcp has_udp size st = ground arith

-- A round either leaves the reader as it is, or pushes a job for the packet.
abbrev IsRound : Bool → ReaderState → RawPacket → ReaderState × Option PacketJob → Type 0
IsRound little rd raw (rd', none) = (is_accepted little raw ≡ false) × (rd' ≡ rd)
IsRound little rd raw (rd', some job) =
    (is_accepted little raw ≡ true)
    × (rd'.packet_id ≡ (rd.packet_id + 1) % 2 ^ 32)
    × (rd'.stats.total_packets ≡ add64 rd.stats.total_packets 1)
    × IsJob job
    × (job.bytes ≡ raw.bytes)
    × (job.packet_id ≡ rd.packet_id)

read_round-IsRound :
    (little : Bool) (rd : ReaderState) (raw : RawPacket)
    → IsBytes raw.bytes
    → Returns (read_round little rd raw) (IsRound little rd raw)
unfolding read_round
read_round-IsRound little rd raw b =
    let (out, e, h) = parse-Returns little raw in
    elim (Bool-cases out.0) [
      | inr c ↦ ((rd, none), rw (e, c) refl, (is_accepted_lem little raw out e ∙ rw c refl, refl))
      | inl c ↦ elim (Bool-cases (is_skipped out.1)) [
        | inl d ↦ (
          (rd, none),
          rw (e, c, d) refl,
          (is_accepted_lem little raw out e ∙ rw (c, d) refl, refl),
        )
        | inr d ↦
            let (job, f, k) =
              create_packet_job-parse little raw out.1 rd.packet_id b
                (e ∙ ap (λ x. ok (x, out.1)) c) d in
            (
              (
                record {
                  stats = count_read out.1.has_tcp out.1.has_udp (length raw.bytes) rd.stats;
                  packet_id = (rd.packet_id + 1) % 2 ^ 32;
                },
                some job,
              ),
              rw (e, c, d, f) refl,
              (
                is_accepted_lem little raw out e ∙ rw (c, d) refl,
                refl,
                count_read-total out.1.has_tcp out.1.has_udp (length raw.bytes) rd.stats,
                k.0,
                k.2,
                k.3,
              ),
            )
      ]
    ]

abbrev pub IsReading : Bool → ReaderState → List RawPacket → ReaderState × List PacketJob → Type 0
IsReading little rd raws out =
    All IsJob out.1
    × (map (λ (job : PacketJob). job.bytes) out.1 ≡ accepted_bytes little raws)
    × IsNumbered rd.packet_id out.1
    × (out.0.stats.total_packets ≡ (rd.stats.total_packets + length out.1) % 2 ^ 64)

-- A round in front of the rest of the loop.
IsRound-IsReading :
    (little : Bool) (rd : ReaderState) (raw : RawPacket) (raws : List RawPacket)
    (one : ReaderState × Option PacketJob) (more : ReaderState × List PacketJob)
    → IsRound little rd raw one
    → IsReading little one.0 raws more
    → IsReading little rd (raw ∷ raws) (more.0, add_job one.1 more.1)
unfolding accepted_bytes
IsRound-IsReading little rd raw raws (rd', none) more (a, e) (j, m, n, t) = (
  j,
  m ∙ sym (rw a refl),
  subst (λ (r : ReaderState). IsNumbered r.packet_id more.1) e n,
  t ∙ ap (λ (r : ReaderState). (r.stats.total_packets + length more.1) % 2 ^ 64) e,
)
IsRound-IsReading little rd raw raws (rd', some job) more (a, i, s, k, w, d) (j, m, n, t) = (
  (k, j),
  ap₂ ◌∷◌ w m ∙ sym (rw a refl),
  (d, subst (λ (x : ℕ). IsNumbered x more.1) i n),
  omega (arith, t, s),
)

IsRound-total :
    (little : Bool) (rd : ReaderState) (raw : RawPacket) (one : ReaderState × Option PacketJob)
    → IsRound little rd raw one
    → rd.stats.total_packets < 2 ^ 64
    → one.0.stats.total_packets < 2 ^ 64
IsRound-total little rd raw (rd', none) h n = rw h.1 n
IsRound-total little rd raw (rd', some job) h n = omega (arith, h.2)

-- On a capture whose packets are bytes the loop ends without undefined behaviour. The jobs that it
-- pushes are those of the packets that are parsed and not skipped, in the order of the capture and
-- with their bytes; the payload of each lies within its bytes, their numbers count up from the
-- reader's, and the total of the statistics grows by their count, modulo 2 ^ 64.
pub read_jobs-IsReading :
    (little : Bool) (rd : ReaderState) (raws : List RawPacket)
    → rd.stats.total_packets < 2 ^ 64
    → All (λ (raw : RawPacket). IsBytes raw.bytes) raws
    → Returns (read_jobs little rd raws) (IsReading little rd raws)
unfolding read_jobs accepted_bytes
read_jobs-IsReading little rd [] n b = ((rd, []), refl, (tt, refl, tt, omega arith))
read_jobs-IsReading little rd (raw ∷ raws) n b =
    let (one, e, h) = read_round-IsRound little rd raw b.0 in
    let (more, f, k) =
      read_jobs-IsReading little one.0 raws (IsRound-total little rd raw one h n) b.1 in
    (
      (more.0, add_job one.1 more.1),
      rw (e, f) refl,
      IsRound-IsReading little rd raw raws one more h k,
    )
