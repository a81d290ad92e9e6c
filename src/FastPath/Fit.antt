-- ===== src/FastPath/Fit.antt =====
-- A fast path whose table is well formed stays so, whatever the clocks say, and it can decide any
-- job at a time after all its records.
use deep_packet_analyzer.Base.{
  ℕ, suc, ◌+◌, ◌≤◌, ◌<◌, ◌≡◌, ◌∙◌, refl, ap, sym, subst, inl, inr, Bool-cases, List, [], ◌∷◌,
  Option, none, some, arith, ok, Succeeds, if◌then◌else◌,
}
use deep_packet_analyzer.Tuple.{FiveTuple, canonical_tuple, tuple_eq}
use deep_packet_analyzer.Connection.{Connection, PacketJob, PacketAction, add64}
use deep_packet_analyzer.Rules.{RuleManager}
use deep_packet_analyzer.Tracker.{Tracker, get_or_create_connection, cleanup_stale}
use deep_packet_analyzer.Tracker.Table.{Entry, find}
use deep_packet_analyzer.Tracker.Invariant.{
  IsTable, get_or_create_connection-IsTable, cleanup_stale-IsTable,
}
use deep_packet_analyzer.FastPath.{
  account, decide, process_packet, with_node, write_back, run_packet, run_idle, count_action,
}
use deep_packet_analyzer.FastPath.Inspect.{FastPath}
use deep_packet_analyzer.FastPath.Safety.{IsJob}
use deep_packet_analyzer.FastPath.Kept.{Always, Always-then}
use deep_packet_analyzer.FastPath.Flow.{IsDecision, decide-IsDecision, account-tuple}
use deep_packet_analyzer.FastPath.Process.{
  IsProcessed, write_back-IsProcessed, get_or_create_connection-key, get_or_create_connection-room,
  run_packet-IsCounted,
}

-- The table is well formed and has room for one record.
pub record IsFit (fp : FastPath) : Type 0 where
  pub table : IsTable fp.tracker
  pub room : 1 ≤ fp.tracker.max_connections

-- If the record is there, the packet is processed.
with_node-IsProcessed :
    (rules : Option RuleManager) (now : ℕ) (job : PacketJob) (fp fp' : FastPath)
    (o : Option Connection)
    → IsTable fp'.tracker
    → fp'.tracker.max_connections ≡ fp.tracker.max_connections
    → (fp'.packets_processed ≡ fp.packets_processed)
    → (fp'.packets_forwarded ≡ fp.packets_forwarded)
    → (fp'.packets_dropped ≡ fp.packets_dropped)
    → find (canonical_tuple job.tuple) fp'.tracker.connections ≡ o
    → Always (with_node rules now job fp' (canonical_tuple job.tuple) o) (IsProcessed fp job.tuple)
unfolding with_node
with_node-IsProcessed rules now job fp fp' none v m p f d e = tt
with_node-IsProcessed rules now job fp fp' (some c) v m p f d e =
    let c1 = account now job c in
    Always-then (IsDecision (fp', c1)) (IsProcessed fp job.tuple) (decide rules job fp' c1)
      (λ out. ok (write_back (canonical_tuple job.tuple) out)) (decide-IsDecision rules job fp' c1)
      (λ out k.
        write_back-IsProcessed fp fp' job.tuple c c1 out v m p f d e (account-tuple now job c) k)

process_packet_kept :
    (rules : Option RuleManager) (fp : FastPath) (created pos now : ℕ) (job : PacketJob)
    → IsTable fp.tracker
    → Always (process_packet rules fp created pos now job) (IsProcessed fp job.tuple)
unfolding process_packet
process_packet_kept rules fp created pos now job v =
    let r = get_or_create_connection fp.tracker created pos job.tuple in
    let fp' : FastPath = record fp { tracker = r.0 } in
    let key : r.1 ≡ canonical_tuple job.tuple =
      get_or_create_connection-key fp.tracker created pos job.tuple in
    subst
      (λ k.
        Always (with_node rules now job fp' k (find k r.0.connections)) (IsProcessed fp job.tuple))
      (sym key)
      (with_node-IsProcessed rules now job fp fp' (find (canonical_tuple job.tuple) r.0.connections)
        (get_or_create_connection-IsTable fp.tracker created pos job.tuple v)
        (get_or_create_connection-room fp.tracker created pos job.tuple) refl refl refl refl)

count_action-tracker :
    (action : PacketAction) (fp : FastPath) → (count_action action fp).tracker ≡ fp.tracker
unfolding count_action
count_action-tracker action fp = ground arith

pub run_packet-IsFit :
    (rules : Option RuleManager) (fp : FastPath) (created pos now : ℕ) (job : PacketJob)
    → IsFit fp
    → Always (run_packet rules fp created pos now job) (λ out. IsFit out.1)
unfolding run_packet
run_packet-IsFit rules fp created pos now job h =
    let fp' : FastPath = record fp { packets_processed = add64 fp.packets_processed 1 } in
    Always-then (IsProcessed fp' job.tuple) (λ out. IsFit out.1)
      (process_packet rules fp' created pos now job)
      (λ (out : PacketAction × FastPath). ok (out.0, count_action out.0 out.1))
      (process_packet_kept rules fp' created pos now job h.table)
      (λ out k. record {
        table = subst IsTable (sym (count_action-tracker out.0 out.1)) k.table;
        room =
            subst (λ (t : Tracker). 1 ≤ t.max_connections) (sym (count_action-tracker out.0 out.1))
              (omega (arith, k.room, h.room));
      })

pub run_idle-IsFit : (fp : FastPath) (now : ℕ) → IsFit fp → IsFit (run_idle fp now)
unfolding run_idle cleanup_stale
run_idle-IsFit fp now h = record {
  table = cleanup_stale-IsTable fp.tracker now 300 h.table;
  room = h.room;
}

-- A time after all records.
after_all : List Entry → ℕ
after_all [] = 1
after_all ((k, c) ∷ es) = suc c.last_seen + after_all es

seen_or : ℕ → Option Connection → ℕ
seen_or n none = n
seen_or n (some c) = c.last_seen

find-after_all :
    (k : FiveTuple) (es : List Entry) (c : Connection)
    → find k es ≡ some c
    → c.last_seen < after_all es
unfolding find after_all seen_or
find-after_all k [] c e = ground (arith, e)
find-after_all k ((i, d) ∷ es) c e = elim (Bool-cases (tuple_eq i k)) [
  | inl a ↦
      let same = ap (seen_or 0) (sym (ap (λ b. if b then some d else find k es) a) ∙ e) in
      omega (arith, same)
  | inr a ↦
      let found = sym (ap (λ b. if b then some d else find k es) a) ∙ e in
      omega (arith, find-after_all k es c found)
]

pub run_packet-decides :
    (rules : Option RuleManager) (fp : FastPath) (job : PacketJob)
    → IsFit fp
    → IsJob job
    → (created : ℕ) × Succeeds (run_packet rules fp created 0 0 job)
run_packet-decides rules fp job h k =
    let es = fp.tracker.connections in
    let (out, e, l) =
      run_packet-IsCounted rules fp (after_all es) 0 0 job h.table h.room
        (λ t c f. find-after_all t es c f) k in
    (after_all es, (out, e))
