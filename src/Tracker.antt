-- ===== src/Tracker.antt =====
-- The flow table of one fast path: include/connection_tracker.h and src/connection_tracker.cpp.
pub mod Table
pub mod Lookup
pub mod Evict
pub mod Invariant
pub mod Reach
pub mod Pointer
pub mod Cleanup
use deep_packet_analyzer.Base.{
  ℕ, ◌+◌, ◌-◌, ◌/◌, ◌^◌, Bool, true, false, ◌||◌, List, [], ◌∷◌, map, Option, none, some, ltb, leb,
  ◌==◌, if◌then◌else◌, length, Bytes,
}
use deep_packet_analyzer.Tuple.{FiveTuple, canonical_tuple}
use deep_packet_analyzer.App.{AppType}
use deep_packet_analyzer.Connection.{
  Connection, ConnectionState, new, classified, blocked, closed, drop, fresh_connection,
  is_classified, is_closed, add64,
}
use Table.{Entry, find, store, insert_at, erase, oldest, retain}

pub record Tracker : Type 0 where
  pub fp_id : ℕ
  pub max_connections : ℕ
  pub connections : List Entry
  pub total_seen : ℕ
  pub classified_count : ℕ
  pub blocked_count : ℕ

-- The constructor.
unfoldable pub new_tracker : ℕ → ℕ → Tracker
new_tracker fp_id max_connections = record {
  fp_id = fp_id;
  max_connections = max_connections;
  connections = [];
  total_seen = 0;
  classified_count = 0;
  blocked_count = 0;
}

pub evict_entries : List Entry → List Entry
evict_entries [] = []
evict_entries (e ∷ es) = erase (oldest e (e ∷ es)).0 (e ∷ es)

unfoldable pub evict_oldest : Tracker → Tracker
unfolding evict_entries
evict_oldest tr = record tr { connections = evict_entries tr.connections }

-- `total_seen_++`, the insertion, and the eviction behind it.
unfoldable pub create_connection : Tracker → ℕ → ℕ → FiveTuple → Tracker
unfolding evict_oldest
create_connection tr now pos t =
    let added = record tr {
      connections = insert_at pos (canonical_tuple t, fresh_connection t now) tr.connections;
      total_seen = add64 tr.total_seen 1;
    } in
    if ltb tr.max_connections (length added.connections) then evict_oldest added else added

-- `getOrCreateConnection`: `now` is what the clock returns, `pos` the place that the hash table
-- gives a new node in its order of iteration. The pointer returned is the key of the node.
unfoldable pub get_or_create_connection : Tracker → ℕ → ℕ → FiveTuple → Tracker × FiveTuple
unfolding create_connection
get_or_create_connection tr now pos t = elim (find (canonical_tuple t) tr.connections) [
  | some c ↦ (tr, canonical_tuple t)
  | none ↦ (create_connection tr now pos t, canonical_tuple t)
]

-- `getConnection`; `none` is nullptr.
unfoldable pub get_connection : Tracker → FiveTuple → Option Connection
get_connection tr t = find (canonical_tuple t) tr.connections

-- `updateConnection` on the record that the pointer names.
unfoldable pub update_connection : ℕ → Connection → ℕ → Bool → Connection
update_connection now c packet_size is_outbound =
    let seen = record c { last_seen = now } in
    if is_outbound
    then record seen {
      packets_out = add64 c.packets_out 1;
      bytes_out = add64 c.bytes_out packet_size;
    }
    else record seen { packets_in = add64 c.packets_in 1; bytes_in = add64 c.bytes_in packet_size }

-- `classifyConnection`: the first classification wins.
unfoldable pub classify_connection : Tracker → Connection → AppType → Bytes → Tracker × Connection
classify_connection tr c app sni = if is_classified c.state then (tr, c) else (
  record tr { classified_count = add64 tr.classified_count 1 },
  record c { app_type = app; sni = sni; state = classified },
)

unfoldable pub block_connection : Tracker → Connection → Tracker × Connection
block_connection tr c = (
  record tr { blocked_count = add64 tr.blocked_count 1 },
  record c { state = blocked; action = drop },
)

unfoldable pub close_connection : Tracker → FiveTuple → Tracker
close_connection tr t = elim (find (canonical_tuple t) tr.connections) [
  | none ↦ tr
  | some c ↦ record tr {
    connections = store (canonical_tuple t) (record c { state = closed }) tr.connections;
  }
]

-- The age is cut down to whole seconds before it is compared.
unfoldable pub is_stale : ℕ → ℕ → Connection → Bool
is_stale now timeout c = ltb timeout ((now - c.last_seen) / 10 ^ 9) || is_closed c.state

-- The connections that stay, and how many were removed.
unfoldable pub cleanup_stale : Tracker → ℕ → ℕ → Tracker × ℕ
cleanup_stale tr now timeout =
    let kept = retain (is_stale now timeout) tr.connections in
    (record tr { connections = kept.0 }, kept.1)

unfoldable pub get_all_connections : Tracker → List Connection
get_all_connections tr = map (λ (e : Entry). e.1) tr.connections

unfoldable pub get_active_count : Tracker → ℕ
get_active_count tr = length tr.connections

pub record TrackerStats : Type 0 where
  pub active_connections : ℕ
  pub total_connections_seen : ℕ
  pub classified_connections : ℕ
  pub blocked_connections : ℕ

unfoldable pub get_stats : Tracker → TrackerStats
get_stats tr = record {
  active_connections = length tr.connections;
  total_connections_seen = tr.total_seen;
  classified_connections = tr.classified_count;
  blocked_connections = tr.blocked_count;
}

unfoldable pub clear : Tracker → Tracker
clear tr = record tr { connections = [] }
