-- ===== src/Report.antt =====
-- The global connection table, src/connection_tracker.cpp: the sums over the trackers of all fast
-- paths. `sort` is std::sort on the pairs of a domain and its packets.
pub mod Sums
use deep_packet_analyzer.Base.{
  ℕ, zero, suc, ◌+◌, Bool, List, [], ◌∷◌, Option, none, some, if◌then◌else◌, length, take, Bytes,
  equal,
}
use deep_packet_analyzer.App.{AppType, app_eq}
use deep_packet_analyzer.Connection.{Connection, add64}
use deep_packet_analyzer.Rules.{is_empty}
use deep_packet_analyzer.Simple.{count_app}
use deep_packet_analyzer.Tracker.{Tracker, get_all_connections, get_stats}

pub record AppFlowStats : Type 0 where
  pub flows : ℕ
  pub packets : ℕ
  pub bytes : ℕ

pub record GlobalStats : Type 0 where
  pub total_active_connections : ℕ
  pub total_connections_seen : ℕ
  pub app_distribution : List (AppType × ℕ)
  pub top_domains : List (Bytes × ℕ)
  pub app_stats : List (AppType × AppFlowStats)

-- `registerTracker`: a number that no fast path has is ignored.
unfoldable pub register_tracker {ℓ} : {T : Type ℓ} → List (Option T) → ℕ → T → List (Option T)
register_tracker [] fp_id tracker = []
register_tracker (t ∷ ts) zero tracker = some tracker ∷ ts
register_tracker (t ∷ ts) (suc fp_id) tracker = t ∷ register_tracker ts fp_id tracker

-- The entry of an application after one more connection.
unfoldable pub add_flow : Connection → AppFlowStats → AppFlowStats
add_flow c s = record {
  flows = add64 s.flows 1;
  packets = add64 s.packets (add64 c.packets_in c.packets_out);
  bytes = add64 s.bytes (add64 c.bytes_in c.bytes_out);
}

abbrev pub no_flows : AppFlowStats
no_flows = record { flows = 0; packets = 0; bytes = 0 }

unfoldable pub count_flow :
    Connection → List (AppType × AppFlowStats) → List (AppType × AppFlowStats)
unfolding add_flow
count_flow c [] = (c.app_type, add_flow c no_flows) ∷ []
count_flow c ((app, s) ∷ rest) =
    if app_eq app c.app_type then (app, add_flow c s) ∷ rest else (app, s) ∷ count_flow c rest

unfoldable pub add_domain : Bytes → ℕ → List (Bytes × ℕ) → List (Bytes × ℕ)
add_domain sni n [] = (sni, n) ∷ []
add_domain sni n ((s, m) ∷ rest) =
    if equal s sni then (s, add64 m n) ∷ rest else (s, m) ∷ add_domain sni n rest

unfoldable pub count_domain : Connection → List (Bytes × ℕ) → List (Bytes × ℕ)
unfolding add_domain
count_domain c domains =
    if is_empty c.sni then domains else add_domain c.sni (add64 c.packets_in c.packets_out) domains

-- The callback on each connection; `top_domains` are the counts of all domains so far.
unfoldable pub count_connections : List Connection → GlobalStats → GlobalStats
unfolding count_flow count_domain
count_connections [] st = st
count_connections (c ∷ cs) st = count_connections cs (record st {
  app_distribution = count_app c.app_type st.app_distribution;
  top_domains = count_domain c st.top_domains;
  app_stats = count_flow c st.app_stats;
})

unfoldable pub add_tracker : Option Tracker → GlobalStats → GlobalStats
unfolding count_connections
add_tracker none st = st
add_tracker (some t) st = count_connections (get_all_connections t) (record st {
  total_active_connections = add64 st.total_active_connections (get_stats t).active_connections;
  total_connections_seen = add64 st.total_connections_seen (get_stats t).total_connections_seen;
})

unfoldable pub add_trackers : List (Option Tracker) → GlobalStats → GlobalStats
unfolding add_tracker
add_trackers [] st = st
add_trackers (t ∷ ts) st = add_trackers ts (add_tracker t st)

abbrev pub no_stats : GlobalStats
no_stats = record {
  total_active_connections = 0;
  total_connections_seen = 0;
  app_distribution = [];
  top_domains = [];
  app_stats = [];
}

-- `getGlobalStats`.
unfoldable pub get_global_stats :
    (List (Bytes × ℕ) → List (Bytes × ℕ)) → List (Option Tracker) → GlobalStats
unfolding add_trackers
get_global_stats sort trackers =
    let st = add_trackers trackers no_stats in
    record st { top_domains = take 20 (sort st.top_domains) }
