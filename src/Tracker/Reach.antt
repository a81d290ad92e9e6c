-- ===== src/Tracker/Reach.antt =====
-- Histories of calls on a tracker.
use deep_packet_analyzer.Base.{ℕ, ◌≤◌, ◌≡◌, refl, ◌∙◌, some, length, arith, Bytes}
use deep_packet_analyzer.Tuple.{FiveTuple}
use deep_packet_analyzer.App.{AppType}
use deep_packet_analyzer.Connection.{Connection}
use deep_packet_analyzer.Tracker.{
  Tracker, new_tracker, evict_oldest, create_connection, get_or_create_connection,
  classify_connection, block_connection, close_connection, cleanup_stale, clear,
}
use deep_packet_analyzer.Tracker.Table.{find, store}
use deep_packet_analyzer.Tracker.Invariant.{
  IsTable, get_or_create_connection-IsTable, store-IsTable, close_connection-IsTable,
  cleanup_stale-IsTable,
}

-- The calls that change a tracker, and the writes through a pointer that it gave out.
pub data TrackerStep (tr : Tracker) : Tracker → Type 0 where
  get_or_create :
      (now pos : ℕ) (t : FiveTuple) → TrackerStep tr (get_or_create_connection tr now pos t).0
  write :
      (k : FiveTuple) (c d : Connection)
      → find k tr.connections ≡ some d
      → c.tuple ≡ d.tuple
      → TrackerStep tr (record tr { connections = store k c tr.connections })
  classify :
      (c : Connection) (app : AppType) (sni : Bytes)
      → TrackerStep tr (classify_connection tr c app sni).0
  block : (c : Connection) → TrackerStep tr (block_connection tr c).0
  close : (t : FiveTuple) → TrackerStep tr (close_connection tr t)
  cleanup : (now timeout : ℕ) → TrackerStep tr (cleanup_stale tr now timeout).0
  clears : TrackerStep tr (clear tr)

TrackerStep-IsTable : {tr tr' : Tracker} → TrackerStep tr tr' → IsTable tr → IsTable tr'
unfolding clear classify_connection block_connection
TrackerStep-IsTable {tr} (get_or_create now pos t) v =
    get_or_create_connection-IsTable tr now pos t v
TrackerStep-IsTable {tr} (write k c d f e) v = store-IsTable tr k c d v f e
TrackerStep-IsTable {tr} (classify c app sni) v = ground arith
TrackerStep-IsTable {tr} (block c) v = record {
  unique = v.unique;
  keyed = v.keyed;
  bounded = v.bounded;
}
TrackerStep-IsTable {tr} (close t) v = close_connection-IsTable tr t v
TrackerStep-IsTable {tr} (cleanup now timeout) v = cleanup_stale-IsTable tr now timeout v
TrackerStep-IsTable clears v = record { unique = tt; keyed = tt; bounded = omega arith }

TrackerStep-max_connections :
    {tr tr' : Tracker} → TrackerStep tr tr' → tr'.max_connections ≡ tr.max_connections
unfolding get_or_create_connection create_connection evict_oldest clear classify_connection
    block_connection close_connection cleanup_stale
TrackerStep-max_connections {tr} (close t) = ground arith
TrackerStep-max_connections _ = ground arith

-- What a tracker can come to from its constructor.
pub data TrackerReach (fp_id max_connections : ℕ) : Tracker → Type 0 where
  start : TrackerReach fp_id max_connections (new_tracker fp_id max_connections)
  next :
      {tr tr' : Tracker}
      → TrackerReach fp_id max_connections tr
      → TrackerStep tr tr'
      → TrackerReach fp_id max_connections tr'

TrackerReach-max_connections :
    {fp_id max_connections : ℕ} {tr : Tracker}
    → TrackerReach fp_id max_connections tr
    → tr.max_connections ≡ max_connections
unfolding new_tracker
TrackerReach-max_connections start = refl
TrackerReach-max_connections (next r s) =
    TrackerStep-max_connections s ∙ TrackerReach-max_connections r

TrackerReach-IsTable :
    {fp_id max_connections : ℕ} {tr : Tracker} → TrackerReach fp_id max_connections tr → IsTable tr
unfolding new_tracker
TrackerReach-IsTable start = record { unique = tt; keyed = tt; bounded = omega arith }
TrackerReach-IsTable (next r s) = TrackerStep-IsTable s (TrackerReach-IsTable r)

-- After any history of calls and of writes that leave a record's tuple alone, the table holds no
-- key twice, each record stands under the canonical form of its tuple, and there are no more
-- records than the limit given to the constructor.
pub TrackerReach-bounded :
    {fp_id max_connections : ℕ} {tr : Tracker}
    → TrackerReach fp_id max_connections tr
    → IsTable tr × (length tr.connections ≤ max_connections)
TrackerReach-bounded r =
    let v = TrackerReach-IsTable r in (v, omega (arith, v.bounded, TrackerReach-max_connections r))
