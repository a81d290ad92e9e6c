-- ===== src/Examples/Flows.antt =====
-- A few packets of one web flow on small tables and queues.
use deep_packet_analyzer.Base.{
  ℕ, ◌+◌, ◌*◌, ◌≤◌, ◌<◌, ◌≡◌, ◌≢◌, ◌⊎◌, ◌↔◌, refl, false, none, some, List, [], ◌∷◌, arith, length,
  Returns, ok, if◌then◌else◌,
}
use deep_packet_analyzer.Tuple.{FiveTuple, StdHash, reverse, canonical_tuple, tuple_eq}
use deep_packet_analyzer.Tuple.Canonical.{canonical_tuple-eq_iff}
use deep_packet_analyzer.Connection.{
  Connection, PacketJob, fresh_connection, blocked, closed, drop, forward,
}
use deep_packet_analyzer.Tracker.{
  Tracker, new_tracker, get_connection, get_or_create_connection, evict_oldest, cleanup_stale,
  update_connection,
}
use deep_packet_analyzer.Tracker.Table.{find}
use deep_packet_analyzer.Tracker.Evict.{evict_oldest-removes_least}
use deep_packet_analyzer.Tracker.Invariant.{IsTable}
use deep_packet_analyzer.Tracker.Reach.{TrackerReach-bounded, start, next, get_or_create, cleanup}
use deep_packet_analyzer.Tracker.Pointer.{
  get_or_create_connection-valid, get_or_create_connection_dangles, found_or,
}
use deep_packet_analyzer.Tracker.Cleanup.{IsFresh, cleanup_stale_lem}
use deep_packet_analyzer.Rules.{
  no_rules, should_block, is_ip_blocked, is_port_blocked, is_app_blocked,
}
use deep_packet_analyzer.Rules.Sets.{member}
use deep_packet_analyzer.FastPath.{process_packet, run_packet, decide, account, is_outbound}
use deep_packet_analyzer.FastPath.Inspect.{FastPath}
use deep_packet_analyzer.FastPath.Flow.{blocked_flow_stays, blocked_flow_reopens}
use deep_packet_analyzer.FastPath.Process.{
  IsProcessed, IsCounted, process_packet-IsProcessed, run_packet-IsCounted,
}
use deep_packet_analyzer.Balance.{LoadBalancer, make_balancers, item_at, dispatch, worker, lb_index}
use deep_packet_analyzer.Balance.Spread.{dispatch-worker, worker-canonical, worker-diagonal}
use deep_packet_analyzer.Queue.{Queue, new_queue, push, pop, pop_front}
use deep_packet_analyzer.Queue.Fifo.{QueueReach, QueueReach-fifo, call, pushed, popped}
use deep_packet_analyzer.Queue.Fifo

abbrev client_to_server : FiveTuple
client_to_server = record {
  src_ip = 10;
  dst_ip = 20;
  src_port = 50000;
  dst_port = 443;
  protocol = 6;
}

abbrev server_to_client : FiveTuple
server_to_client = record {
  src_ip = 20;
  dst_ip = 10;
  src_port = 443;
  dst_port = 50000;
  protocol = 6;
}

abbrev other_flow : FiveTuple
other_flow = record { src_ip = 11; dst_ip = 20; src_port = 50001; dst_port = 80; protocol = 6 }

-- One known flow, last seen at 5.
abbrev one_flow : Tracker
one_flow = record {
  fp_id = 0;
  max_connections = 2;
  connections = (client_to_server, fresh_connection client_to_server 5) ∷ [];
  total_seen = 1;
  classified_count = 0;
  blocked_count = 0;
}

one_flow-IsTable : IsTable one_flow
unfolding find canonical_tuple
one_flow-IsTable = record { unique = (refl, tt); keyed = (refl, tt); bounded = omega arith }

one_flow-old :
    (k : FiveTuple) (c : Connection) → find k one_flow.connections ≡ some c → c.last_seen < 9
unfolding find
one_flow-old k c e = ground (arith, e)

abbrev one_path : FastPath
one_path = record {
  tracker = one_flow;
  packets_processed = 1;
  packets_forwarded = 1;
  packets_dropped = 0;
  sni_extractions = 0;
  classification_hits = 0;
}

-- An acknowledgement with FIN and no payload.
abbrev fin_job : PacketJob
fin_job = record {
  packet_id = 7;
  tuple = server_to_client;
  bytes = 1 ∷ 2 ∷ 3 ∷ [];
  eth_offset = 0;
  ip_offset = 14;
  transport_offset = 34;
  payload_offset = 3;
  payload_length = 0;
  tcp_flags = 17;
  payload_data = none;
  ts_sec = 0;
  ts_usec = 0;
}

abbrev blocked_flow : Connection
blocked_flow = record (fresh_connection client_to_server 5) { state = blocked; action = drop }

process_packet-IsProcessed_example :
    Returns
      (process_packet (some no_rules) one_path 9 0 9 fin_job)
      (IsProcessed one_path server_to_client)
process_packet-IsProcessed_example =
    process_packet-IsProcessed (some no_rules) one_path 9 0 9 fin_job one_flow-IsTable (omega arith)
      one_flow-old (omega arith)

run_packet-IsCounted_example :
    Returns
      (run_packet (some no_rules) one_path 9 0 9 fin_job)
      (λ out. IsTable out.1.tracker × IsCounted one_path out)
run_packet-IsCounted_example =
    run_packet-IsCounted (some no_rules) one_path 9 0 9 fin_job one_flow-IsTable (omega arith)
      one_flow-old (omega arith)

abbrev data_job : PacketJob
data_job = record fin_job { tcp_flags = 16 }

blocked_flow_stays_example :
    (decide (some no_rules) data_job one_path (account 9 data_job blocked_flow)
      ≡ ok (drop, one_path, account 9 data_job blocked_flow))
    × ((account 9 data_job blocked_flow).state ≡ blocked)
blocked_flow_stays_example =
    blocked_flow_stays (some no_rules) 9 data_job one_path blocked_flow refl refl

fin_job-passes :
    should_block no_rules 20 50000
      (account 9 fin_job blocked_flow).app_type
      (account 9 fin_job blocked_flow).sni
    ≡ none
unfolding should_block account is_ip_blocked is_port_blocked is_app_blocked member update_connection
    is_outbound
fin_job-passes = refl

blocked_flow_reopens_example :
    (decide (some no_rules) fin_job one_path (account 9 fin_job blocked_flow)
      ≡ ok (forward, one_path, account 9 fin_job blocked_flow))
    × ((account 9 fin_job blocked_flow).state ≡ closed)
blocked_flow_reopens_example =
    blocked_flow_reopens no_rules 9 fin_job one_path blocked_flow refl refl refl fin_job-passes

-- The same with room for no other flow.
abbrev full_table : Tracker
full_table = record one_flow { max_connections = 1 }

TrackerReach-bounded_example :
    IsTable
      (cleanup_stale (get_or_create_connection (new_tracker 0 1) 5 0 client_to_server).0 9 300).0
    × (length
          (cleanup_stale
            (get_or_create_connection (new_tracker 0 1) 5 0 client_to_server).0
            9
            300).0.connections
        ≤ 1)
TrackerReach-bounded_example =
    TrackerReach-bounded (next (next start (get_or_create 5 0 client_to_server)) (cleanup 9 300))

get_or_create_connection-valid_example :
    find
      (get_or_create_connection one_flow 9 0 other_flow).1
      (get_or_create_connection one_flow 9 0 other_flow).0.connections
    ≡ some (found_or (get_connection one_flow other_flow) (fresh_connection other_flow 9))
get_or_create_connection-valid_example =
    get_or_create_connection-valid one_flow 9 0 other_flow one_flow-IsTable (omega arith)
      one_flow-old

other_flow-new : find (canonical_tuple other_flow) full_table.connections ≡ none
unfolding find canonical_tuple tuple_eq
other_flow-new = refl

get_or_create_connection_dangles_example :
    find
      (get_or_create_connection full_table 5 0 other_flow).1
      (get_or_create_connection full_table 5 0 other_flow).0.connections
    ≡ none
get_or_create_connection_dangles_example =
    get_or_create_connection_dangles full_table 5 other_flow other_flow-new (omega arith)
      (omega arith, tt)

not_empty : one_flow.connections ≢ []
not_empty e = cc

evict_oldest-removes_least_example :
    (k : FiveTuple) × (c : Connection) × (find k one_flow.connections ≡ some c)
    × ((j : FiveTuple) (d : Connection)
        → find j one_flow.connections ≡ some d
        → c.last_seen ≤ d.last_seen)
    × ((j : FiveTuple)
        → find j (evict_oldest one_flow).connections
          ≡ (if tuple_eq k j then none else find j one_flow.connections))
evict_oldest-removes_least_example =
    evict_oldest-removes_least one_flow one_flow-IsTable.unique not_empty

cleanup_stale_lem_example :
    ((k : FiveTuple) (c : Connection)
      → (find k (cleanup_stale one_flow 9 300).0.connections ≡ some c)
        ↔ ((find k one_flow.connections ≡ some c) × IsFresh 9 300 c))
    × (length (cleanup_stale one_flow 9 300).0.connections + (cleanup_stale one_flow 9 300).1
        ≡ length one_flow.connections)
cleanup_stale_lem_example = cleanup_stale_lem one_flow 9 300 one_flow-IsTable

canonical_tuple-eq_iff_example :
    (canonical_tuple client_to_server ≡ canonical_tuple server_to_client)
    ↔ ((client_to_server ≡ server_to_client) ⊎ (client_to_server ≡ reverse server_to_client))
canonical_tuple-eq_iff_example = canonical_tuple-eq_iff client_to_server server_to_client

-- A hash function of the library that leaves every number as it is.
abbrev plain_hash : StdHash
plain_hash = record { hash32 = λ n. n; hash16 = λ n. n; hash8 = λ n. n }

one_canonical : canonical_tuple client_to_server ≡ canonical_tuple server_to_client
unfolding canonical_tuple
one_canonical = refl

worker-canonical_example :
    worker plain_hash 2 3 client_to_server ≡ worker plain_hash 2 3 server_to_client
worker-canonical_example =
    worker-canonical plain_hash 2 3 client_to_server server_to_client one_canonical

worker-diagonal_example :
    worker plain_hash 2 2 client_to_server ≡ lb_index plain_hash 2 client_to_server * 3
worker-diagonal_example = worker-diagonal plain_hash 2 client_to_server

dispatch-worker_example :
    (lbs : List (LoadBalancer ℕ)) × (make_balancers 2 2 (70 ∷ 71 ∷ 72 ∷ 73 ∷ []) ≡ ok lbs)
    × (dispatch plain_hash lbs 2 client_to_server
        ≡ item_at (70 ∷ 71 ∷ 72 ∷ 73 ∷ []) (worker plain_hash 2 2 client_to_server))
dispatch-worker_example =
    dispatch-worker plain_hash 2 2 (70 ∷ 71 ∷ 72 ∷ 73 ∷ []) client_to_server (omega arith)
      (omega arith) (omega arith)

-- Two items pushed and one popped.
abbrev after_two : Queue ℕ
after_two = record { items = 8 ∷ 9 ∷ []; max_size = 4; is_shutdown = false }

abbrev after_pop : Queue ℕ
after_pop = record { items = 9 ∷ []; max_size = 4; is_shutdown = false }

three_calls : QueueReach 4 (8 ∷ 9 ∷ []) (8 ∷ []) after_pop
unfolding new_queue push pop pop_front
three_calls =
    call (8 ∷ 9 ∷ []) [] [] (8 ∷ []) after_two after_pop
      (call (8 ∷ []) [] (9 ∷ []) [] (record { items = 8 ∷ []; max_size = 4; is_shutdown = false })
        after_two
        (call [] [] (8 ∷ []) [] (new_queue 4)
          (record { items = 8 ∷ []; max_size = 4; is_shutdown = false }) Fifo.start
          (pushed 8 _ refl refl))
        (pushed 9 _ refl refl))
      (popped 8 _ refl)

QueueReach-fifo_example : (8 ∷ 9 ∷ [] ≡ 8 ∷ after_pop.items) × (length after_pop.items ≤ 4)
QueueReach-fifo_example = QueueReach-fifo 4 (8 ∷ 9 ∷ []) (8 ∷ []) after_pop three_calls
