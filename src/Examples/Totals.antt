-- ===== src/Examples/Totals.antt =====
-- The report on two trackers, one of which is not registered.
use deep_packet_analyzer.Rules.File.{load_rules, load_lines, split_lines, load_entry, stoi_u16}
use deep_packet_analyzer.Base.{
  equal, arith, some, none, ◌++◌, codes, ok, refl, ℕ, ◌%◌, ◌^◌, ◌≡◌, List, [], ◌∷◌, Option, none,
  length, Bytes,
}
use deep_packet_analyzer.Tuple.{FiveTuple, StdHash}
use deep_packet_analyzer.Balance.{dispatch, item_at, worker}
use deep_packet_analyzer.FastPath.Inspect.{FastPath}
use deep_packet_analyzer.Rules.{RuleManager, no_rules, block_port}
use deep_packet_analyzer.Engine.Setup.{
  Components, new_fast_path, first_rules, initialize, queue_ptrs,
}
use deep_packet_analyzer.Engine.Registry.{all_connections, current_trackers, initialize-reports}
use deep_packet_analyzer.App.{app_eq, unknown, http}
use deep_packet_analyzer.Connection.{fresh_connection}
use deep_packet_analyzer.Tracker.{Tracker, get_all_connections}
use deep_packet_analyzer.Simple.{count_app}
use deep_packet_analyzer.Report.{get_global_stats, register_tracker}
use deep_packet_analyzer.Report.Sums.{connections_of, count_type, flows_of, get_global_stats-sums}

abbrev web_flow : FiveTuple
web_flow = record { src_ip = 10; dst_ip = 20; src_port = 50000; dst_port = 80; protocol = 6 }

abbrev mail_flow : FiveTuple
mail_flow = record { src_ip = 11; dst_ip = 20; src_port = 50001; dst_port = 25; protocol = 6 }

abbrev web_tracker : Tracker
web_tracker = record {
  fp_id = 1;
  max_connections = 8;
  connections =
      (web_flow, record (fresh_connection web_flow 5) { app_type = http })
      ∷ (mail_flow, fresh_connection mail_flow 6)
      ∷ [];
  total_seen = 3;
  classified_count = 1;
  blocked_count = 0;
}

abbrev registered : List (Option Tracker)
registered = register_tracker (none ∷ none ∷ []) 1 web_tracker

abbrev unsorted : List (Bytes × ℕ) → List (Bytes × ℕ)
unsorted domains = domains

get_global_stats-sums_example :
    ((get_global_stats unsorted registered).total_active_connections
      ≡ length (connections_of registered) % 2 ^ 64)
    × (flows_of http (get_global_stats unsorted registered).app_stats
        ≡ count_type http (connections_of registered) % 2 ^ 64)
get_global_stats-sums_example = get_global_stats-sums unsorted registered http

counted_types :
    (get_global_stats unsorted registered).app_distribution ≡ (http, 1) ∷ (unknown, 1) ∷ []
unfolding get_global_stats register_tracker get_all_connections count_app app_eq
counted_types = refl

abbrev plain_hash : StdHash
plain_hash = record { hash32 = λ n. n; hash16 = λ n. n; hash8 = λ n. n }

-- Two fast paths, of which one has seen the two flows.
abbrev later : List FastPath
later = new_fast_path 0 ∷ record (new_fast_path 1) { tracker = web_tracker } ∷ []

abbrev rules_text : Bytes
rules_text = codes "[BLOCKED_PORTS]" ++ b'\n' ∷ codes "8080" ++ b'\n' ∷ []

abbrev read_rules : RuleManager
read_rules = block_port no_rules 8080

first_rules-port : first_rules (codes "rules.txt") (some rules_text) ≡ ok read_rules
unfolding first_rules load_rules load_lines split_lines load_entry equal stoi_u16
first_rules-port = refl

initialize-reports_example :
    (s : Components) × (initialize 1 2 (codes "rules.txt") (some rules_text) ≡ ok s)
    × (s.rule_manager ≡ read_rules)
    × (dispatch plain_hash s.load_balancers 1 web_flow
        ≡ item_at (queue_ptrs 0 s.fast_paths) (worker plain_hash 1 2 web_flow))
    × ((get_global_stats unsorted (current_trackers later s.trackers)).total_active_connections
        ≡ length (all_connections later) % 2 ^ 64)
initialize-reports_example =
    initialize-reports plain_hash web_flow 1 2 (codes "rules.txt") (some rules_text) read_rules
      unsorted later (omega arith) (omega arith) first_rules-port refl
