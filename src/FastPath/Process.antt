-- ===== src/FastPath/Process.antt =====
-- A whole packet on a fast path: the table stays well formed, the packet is decided, and counted.
use deep_packet_analyzer.Base.{
  ℕ, ◌≤◌, ◌<◌, ◌≡◌, refl, sym, ap, subst, ◌∙◌, Option, some, if◌then◌else◌, length, arith, Result,
  ok, ◌>>=◌, Bool-cases, inl, inr, Returns,
}
use deep_packet_analyzer.Tuple.{FiveTuple, canonical_tuple, tuple_eq_iff}
use deep_packet_analyzer.Connection.{
  Connection, PacketJob, PacketAction, is_blocked, add64, fresh_connection,
}
use deep_packet_analyzer.Rules.{RuleManager}
use deep_packet_analyzer.Tracker.{
  Tracker, get_connection, get_or_create_connection, create_connection, evict_oldest,
}
use deep_packet_analyzer.Tracker.Table.{find}
use deep_packet_analyzer.Tracker.Lookup.{IsUnique, find-store}
use deep_packet_analyzer.Tracker.Invariant.{
  IsTable, IsKeyed, get_or_create_connection-IsTable, store-IsTable,
}
use deep_packet_analyzer.Tracker.Pointer.{get_or_create_connection-valid, found_or}
use deep_packet_analyzer.FastPath.Inspect.{FastPath}
use deep_packet_analyzer.FastPath.{
  account, decide, is_drop, process_packet, with_node, write_back, run_packet, count_action,
}
use deep_packet_analyzer.FastPath.Safety.{IsJob, decide-Succeeds}
use deep_packet_analyzer.FastPath.Kept.{Always}
use deep_packet_analyzer.FastPath.Flow.{Outcome, IsDecision, decide-IsDecision, account-tuple}

Always-ok {ℓ κ} : {A : Type ℓ} (P : A → Type κ) (m : Result A) (a : A) → Always m P → m ≡ ok a → P a
Always-ok P m a h e = subst (λ n. Always n P) e h

IsTable-transport :
    (tr tr' : Tracker)
    → tr'.connections ≡ tr.connections
    → tr'.max_connections ≡ tr.max_connections
    → IsTable tr
    → IsTable tr'
IsTable-transport tr tr' e m v = record {
  unique = subst IsUnique (sym e) v.unique;
  keyed = subst IsKeyed (sym e) v.keyed;
  bounded = subst (λ es. length es ≤ tr'.max_connections) (sym e) (omega (arith, m, v.bounded));
}

pub get_or_create_connection-key :
    (tr : Tracker) (now pos : ℕ) (t : FiveTuple)
    → (get_or_create_connection tr now pos t).1 ≡ canonical_tuple t
unfolding get_or_create_connection
get_or_create_connection-key tr now pos t = ground arith

pub get_or_create_connection-room :
    (tr : Tracker) (now pos : ℕ) (t : FiveTuple)
    → (get_or_create_connection tr now pos t).0.max_connections ≡ tr.max_connections
unfolding get_or_create_connection create_connection evict_oldest
get_or_create_connection-room tr now pos t = ground arith

-- What a packet leaves behind: a well-formed table of the same size limit in which the flow's
-- record stands, blocked exactly when the packet is dropped.
pub record IsProcessed (fp : FastPath) (t : FiveTuple) (out : PacketAction × FastPath)
    : Type 0 where
  pub table : IsTable out.1.tracker
  pub room : out.1.tracker.max_connections ≡ fp.tracker.max_connections
  pub processed : out.1.packets_processed ≡ fp.packets_processed
  pub forwarded : out.1.packets_forwarded ≡ fp.packets_forwarded
  pub dropped : out.1.packets_dropped ≡ fp.packets_dropped
  pub flow :
      (c : Connection) × (get_connection out.1.tracker t ≡ some c)
      × (is_drop out.0 ≡ is_blocked c.state)

-- The writes to the record of a decided flow.
pub write_back-IsProcessed :
    (fp fp' : FastPath) (t : FiveTuple) (c0 c1 : Connection) (out : Outcome)
    → IsTable fp'.tracker
    → fp'.tracker.max_connections ≡ fp.tracker.max_connections
    → (fp'.packets_processed ≡ fp.packets_processed)
    → (fp'.packets_forwarded ≡ fp.packets_forwarded)
    → (fp'.packets_dropped ≡ fp.packets_dropped)
    → find (canonical_tuple t) fp'.tracker.connections ≡ some c0
    → c1.tuple ≡ c0.tuple
    → IsDecision (fp', c1) out
    → IsProcessed fp t (write_back (canonical_tuple t) out)
unfolding write_back get_connection
write_back-IsProcessed fp fp' t c0 c1 (action, fp'', c) v m p f d e u k =
    let found : find (canonical_tuple t) fp''.tracker.connections ≡ some c0 =
      ap (find (canonical_tuple t)) k.connections ∙ e in
    let table : IsTable fp''.tracker =
      IsTable-transport fp'.tracker fp''.tracker k.connections k.room v in
    record {
      table = store-IsTable fp''.tracker (canonical_tuple t) c c0 table found (k.tuple ∙ u);
      room = k.room ∙ m;
      processed = k.processed ∙ p;
      forwarded = k.forwarded ∙ f;
      dropped = k.dropped ∙ d;
      flow = (
        c,
        find-store (canonical_tuple t) (canonical_tuple t) c c0 fp''.tracker.connections found
            ∙ rw ((tuple_eq_iff (canonical_tuple t) (canonical_tuple t)).1 refl),
        k.agrees,
      );
    }

with_node-decided :
    (rules : Option RuleManager) (now : ℕ) (job : PacketJob) (fp : FastPath) (key : FiveTuple)
    (c : Connection) (out : Outcome)
    → decide rules job fp (account now job c) ≡ ok out
    → with_node rules now job fp key (some c) ≡ ok (write_back key out)
unfolding with_node
with_node-decided rules now job fp key c out e = ap (λ m. m >>= λ o. ok (write_back key o)) e

-- If the table is well formed and has room for one record, if every record in it was last seen
-- strictly before the packet, and if the payload of the job lies within its bytes, then the packet
-- is decided without a fault: the table stays well formed, and the record of the flow stands in it,
-- blocked exactly when the packet is dropped.
pub process_packet-IsProcessed :
    (rules : Option RuleManager) (fp : FastPath) (created pos now : ℕ) (job : PacketJob)
    → IsTable fp.tracker
    → 1 ≤ fp.tracker.max_connections
    → ((k : FiveTuple) (c : Connection)
        → find k fp.tracker.connections ≡ some c
        → c.last_seen < created)
    → IsJob job
    → Returns (process_packet rules fp created pos now job) (IsProcessed fp job.tuple)
process_packet-IsProcessed rules fp created pos now job v room old h =
    let r = get_or_create_connection fp.tracker created pos job.tuple in
    let c0 = found_or (get_connection fp.tracker job.tuple) (fresh_connection job.tuple created) in
    let fp' = record fp { tracker = r.0 } in
    let e : find r.1 r.0.connections ≡ some c0 =
      get_or_create_connection-valid fp.tracker created pos job.tuple v room old in
    let key : r.1 ≡ canonical_tuple job.tuple =
      get_or_create_connection-key fp.tracker created pos job.tuple in
    let c1 = account now job c0 in
    let (out, g) = decide-Succeeds rules job fp' c1 h in
    (
      write_back (canonical_tuple job.tuple) out,
      unfold process_packet in
          ap (with_node rules now job fp' r.1) e
          ∙ ap (λ k. with_node rules now job fp' k (some c0)) key
          ∙ with_node-decided rules now job fp' (canonical_tuple job.tuple) c0 out g,
      write_back-IsProcessed fp fp' job.tuple c0 c1 out
          (get_or_create_connection-IsTable fp.tracker created pos job.tuple v)
          (get_or_create_connection-room fp.tracker created pos job.tuple) refl refl refl
          (ap (λ k. find k r.0.connections) (sym key) ∙ e) (account-tuple now job c0)
          (Always-ok (IsDecision (fp', c1)) (decide rules job fp' c1) out
            (decide-IsDecision rules job fp' c1) g),
    )

-- The counters of packets after one more, which was dropped or not.
pub record IsCounted (fp : FastPath) (out : PacketAction × FastPath) : Type 0 where
  pub processed : out.1.packets_processed ≡ add64 fp.packets_processed 1
  pub dropped :
      out.1.packets_dropped
      ≡ (if is_drop out.0 then add64 fp.packets_dropped 1 else fp.packets_dropped)
  pub forwarded :
      out.1.packets_forwarded
      ≡ (if is_drop out.0 then fp.packets_forwarded else add64 fp.packets_forwarded 1)

count_action-IsCounted :
    (fp : FastPath) (t : FiveTuple) (action : PacketAction) (fp' : FastPath)
    → IsProcessed (record fp { packets_processed = add64 fp.packets_processed 1 }) t (action, fp')
    → IsTable (count_action action fp').tracker × IsCounted fp (action, count_action action fp')
unfolding count_action
count_action-IsCounted fp t action fp' k = elim (Bool-cases (is_drop action)) [
  | inl e ↦ rw e (
    k.table,
    record {
      processed = k.processed;
      dropped = rw e (ap (λ n. add64 n 1) k.dropped);
      forwarded = rw e k.forwarded;
    },
  )
  | inr e ↦ rw e (
    k.table,
    record {
      processed = k.processed;
      dropped = rw e k.dropped;
      forwarded = rw e (ap (λ n. add64 n 1) k.forwarded);
    },
  )
]

-- Under the same conditions an iteration of the loop that got a packet counts it once as processed
-- and once as dropped or as forwarded, by the decision that it hands on.
pub run_packet-IsCounted :
    (rules : Option RuleManager) (fp : FastPath) (created pos now : ℕ) (job : PacketJob)
    → IsTable fp.tracker
    → 1 ≤ fp.tracker.max_connections
    → ((k : FiveTuple) (c : Connection)
        → find k fp.tracker.connections ≡ some c
        → c.last_seen < created)
    → IsJob job
    → Returns
        (run_packet rules fp created pos now job)
        (λ out. IsTable out.1.tracker × IsCounted fp out)
unfolding run_packet
run_packet-IsCounted rules fp created pos now job v room old h =
    let fp' = record fp { packets_processed = add64 fp.packets_processed 1 } in
    let (out, e, k) = process_packet-IsProcessed rules fp' created pos now job v room old h in
    (
      (out.0, count_action out.0 out.1),
      ap (λ m. m >>= λ (o : PacketAction × FastPath). ok (o.0, count_action o.0 o.1)) e,
      count_action-IsCounted fp job.tuple out.0 out.1 k,
    )
