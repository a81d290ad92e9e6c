-- ===== src/Report/Sums.antt =====
-- The sums of the global table count every connection once.
use deep_packet_analyzer.Base.{
  ℕ, suc, ◌+◌, ◌%◌, ◌^◌, ◌<◌, ◌≡◌, inl, inr, refl, ap, sym, ◌∙◌, true, false, List, [], ◌∷◌, ◌++◌,
  Option, none, some, if◌then◌else◌, length, length-append, arith, Bytes, Bool-cases, map,
}
use deep_packet_analyzer.App.{AppType, app_eq}
use deep_packet_analyzer.App.Name.{app_eq_iff}
use deep_packet_analyzer.Connection.{Connection, add64}
use deep_packet_analyzer.Tracker.Table.{Entry}
use deep_packet_analyzer.Tracker.{Tracker, get_all_connections, get_stats}
use deep_packet_analyzer.Simple.{count_app}
use deep_packet_analyzer.Report.{
  AppFlowStats, GlobalStats, add_flow, count_domain, count_flow, count_connections, add_tracker,
  add_trackers, no_stats, get_global_stats,
}

-- The connections of all trackers, tracker by tracker.
unfoldable pub connections_of : List (Option Tracker) → List Connection
connections_of [] = []
connections_of (none ∷ ts) = connections_of ts
connections_of (some t ∷ ts) = get_all_connections t ++ connections_of ts

-- How many connections have this type.
pub count_type : AppType → List Connection → ℕ
count_type app [] = 0
count_type app (c ∷ cs) = (if app_eq c.app_type app then 1 else 0) + count_type app cs

-- The flows that are recorded for an application.
pub flows_of : AppType → List (AppType × AppFlowStats) → ℕ
flows_of app [] = 0
flows_of app ((a, s) ∷ rest) = if app_eq a app then s.flows else flows_of app rest

count_type-append :
    (app : AppType) (cs ds : List Connection)
    → count_type app (cs ++ ds) ≡ count_type app cs + count_type app ds
unfolding count_type
count_type-append app [] ds = omega arith
count_type-append app (c ∷ cs) ds = omega (arith, count_type-append app cs ds)

-- Types that are not told from a third are not told from each other.
app_eq-other : (a b app : AppType) → app_eq a b ≡ false → app_eq a app ≡ true → app_eq b app ≡ false
app_eq-other a b app e f = elim (Bool-cases (app_eq b app)) [
  | inl g ↦
      let p = (app_eq_iff a app).0 f ∙ sym ((app_eq_iff b app).0 g) in
      let k = (app_eq_iff a b).1 p in absurd (ground (arith, k, e))
  | inr g ↦ g
]

flows_of-count_flow :
    (app : AppType) (c : Connection) (stats : List (AppType × AppFlowStats))
    → flows_of app (count_flow c stats)
      ≡ (if app_eq c.app_type app then add64 (flows_of app stats) 1 else flows_of app stats)
unfolding flows_of count_flow add_flow
flows_of-count_flow app c [] = elim (Bool-cases (app_eq c.app_type app)) [
  | inl e ↦ rw e refl
  | inr e ↦ rw e refl
]
flows_of-count_flow app c ((a, s) ∷ rest) = elim (Bool-cases (app_eq a c.app_type)) [
  | inl e ↦
      let p = ap (λ x. app_eq x app) ((app_eq_iff a c.app_type).0 e) in
      elim (Bool-cases (app_eq a app)) [
        | inl f ↦ rw (e, f, sym p ∙ f) refl
        | inr f ↦ rw (e, f, sym p ∙ f) refl
      ]
  | inr e ↦ elim (Bool-cases (app_eq a app)) [
    | inl f ↦ rw (e, f, app_eq-other a c.app_type app e f) refl
    | inr f ↦ rw (e, f) (flows_of-count_flow app c rest)
  ]
]

-- What stays when connections are counted, and what grows.
count_connections-flows_of :
    (app : AppType) (cs : List Connection) (st : GlobalStats)
    → flows_of app st.app_stats < 2 ^ 64
    → ((count_connections cs st).total_active_connections ≡ st.total_active_connections)
      × (flows_of app (count_connections cs st).app_stats
          ≡ (flows_of app st.app_stats + count_type app cs) % 2 ^ 64)
unfolding count_connections count_type
count_connections-flows_of app [] st h = (refl, omega arith)
count_connections-flows_of app (c ∷ cs) st h =
    let st' = record st {
      app_distribution = count_app c.app_type st.app_distribution;
      top_domains = count_domain c st.top_domains;
      app_stats = count_flow c st.app_stats;
    } in
    let e = flows_of-count_flow app c st.app_stats in
    elim (Bool-cases (app_eq c.app_type app)) [
      | inl b ↦
          let f : flows_of app st'.app_stats ≡ add64 (flows_of app st.app_stats) 1 =
            e ∙ rw b refl in
          let (k, l) = count_connections-flows_of app cs st' (omega (arith, f)) in
          (k, rw b (omega (arith, l, f)))
      | inr b ↦
          let f : flows_of app st'.app_stats ≡ flows_of app st.app_stats = e ∙ rw b refl in
          let (k, l) = count_connections-flows_of app cs st' (omega (arith, f, h)) in
          (k, rw b (omega (arith, l, f)))
    ]

length-map : {A B : Type 0} → (f : A → B) → (xs : List A) → length (map f xs) ≡ length xs
length-map f [] = refl
length-map f (x ∷ xs) = ap suc (length-map f xs)

length-get_all_connections :
    (t : Tracker) → length (get_all_connections t) ≡ (get_stats t).active_connections
unfolding get_all_connections get_stats
length-get_all_connections t = length-map (λ (e : Entry). e.1) t.connections

add_trackers-sums :
    (app : AppType) (ts : List (Option Tracker)) (st : GlobalStats)
    → flows_of app st.app_stats < 2 ^ 64
    → st.total_active_connections < 2 ^ 64
    → ((add_trackers ts st).total_active_connections
        ≡ (st.total_active_connections + length (connections_of ts)) % 2 ^ 64)
      × (flows_of app (add_trackers ts st).app_stats
          ≡ (flows_of app st.app_stats + count_type app (connections_of ts)) % 2 ^ 64)
unfolding add_trackers add_tracker connections_of get_stats count_type
add_trackers-sums app [] st h m = (omega arith, omega arith)
add_trackers-sums app (none ∷ ts) st h m = add_trackers-sums app ts st h m
add_trackers-sums app (some t ∷ ts) st h m =
    let cs = get_all_connections t in
    let st1 = record st {
      total_active_connections = add64 st.total_active_connections (get_stats t).active_connections;
      total_connections_seen = add64 st.total_connections_seen (get_stats t).total_connections_seen;
    } in
    let (e, f) = count_connections-flows_of app cs st1 h in
    let (k, l) =
      add_trackers-sums app ts (count_connections cs st1) (omega (arith, f)) (omega (arith, e)) in
    (
      omega (arith, k, e, length-append cs (connections_of ts), length-get_all_connections t),
      omega (arith, l, f, count_type-append app cs (connections_of ts)),
    )

-- Whatever trackers are registered, and whatever the sort of the domains does: the report's number
-- of active connections is the number of connections that the trackers hold, and its number of
-- flows of an application is the number of those connections that have this application. Both
-- are counted modulo 2 ^ 64.
pub get_global_stats-sums :
    (sort : List (Bytes × ℕ) → List (Bytes × ℕ)) (ts : List (Option Tracker)) (app : AppType)
    → ((get_global_stats sort ts).total_active_connections ≡ length (connections_of ts) % 2 ^ 64)
      × (flows_of app (get_global_stats sort ts).app_stats
          ≡ count_type app (connections_of ts) % 2 ^ 64)
unfolding get_global_stats flows_of
get_global_stats-sums sort ts app =
    let (k, l) = add_trackers-sums app ts no_stats (omega arith) (omega arith) in
    (omega (arith, k), omega (arith, l))
