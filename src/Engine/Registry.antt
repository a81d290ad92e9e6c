-- ===== src/Engine/Registry.antt =====
-- After `initialize` every fast path has its tracker in the global table, so that the report on
-- the table counts the connections of all fast paths, whatever they did since.
use deep_packet_analyzer.Base.{
  ℕ, zero, suc, ◌*◌, ◌%◌, ◌^◌, ◌<◌, ◌≡◌, refl, ap, sym, ◌∙◌, List, [], ◌∷◌, ◌++◌, append_assoc,
  Option, none, some, length, length-append, get_elem?, arith, Bytes, ok,
}
use deep_packet_analyzer.Balance.{dispatch, item_at, worker}
use deep_packet_analyzer.Balance.Spread.{dispatch-worker}
use deep_packet_analyzer.Connection.{Connection}
use deep_packet_analyzer.FastPath.Inspect.{FastPath}
use deep_packet_analyzer.Report.{register_tracker, get_global_stats}
use deep_packet_analyzer.Report.Sums.{connections_of, get_global_stats-sums}
use deep_packet_analyzer.App.{unknown}
use deep_packet_analyzer.Rules.{RuleManager}
use deep_packet_analyzer.Tracker.{Tracker, get_all_connections}
use deep_packet_analyzer.Tuple.{FiveTuple, StdHash}
use deep_packet_analyzer.Engine.Setup.{
  Components, first_rules, initialize, fast_paths_from, queue_ptrs, no_trackers, register_from,
}

numbers_from : ℕ → ℕ → List (Option ℕ)
numbers_from i zero = []
numbers_from i (suc n) = some i ∷ numbers_from (suc i) n

register_tracker-append :
    (pre rest : List (Option ℕ)) (i x : ℕ)
    → length pre ≡ i
    → register_tracker (pre ++ none ∷ rest) i x ≡ pre ++ some x ∷ rest
unfolding register_tracker
register_tracker-append [] rest zero x h = refl
register_tracker-append [] rest (suc i) x h = absurd (omega (arith, h))
register_tracker-append (p ∷ pre) rest zero x h = absurd (omega (arith, h))
register_tracker-append (p ∷ pre) rest (suc i) x h =
    ap (λ t. p ∷ t) (register_tracker-append pre rest i x (omega (arith, h)))

register_from-all :
    (n i : ℕ) (pre : List (Option ℕ))
    → length pre ≡ i
    → register_from i n (pre ++ no_trackers n) ≡ pre ++ numbers_from i n
unfolding register_from no_trackers numbers_from
register_from-all zero i pre h = refl
register_from-all (suc n) i pre h =
    let next = register_tracker-append pre (no_trackers n) i i h in
    let one = some i ∷ [] in
    ap (λ t. register_from (suc i) n t) (next ∙ sym (append_assoc pre one (no_trackers n)))
    ∙ register_from-all n (suc i) (pre ++ one) (omega (arith, h, length-append pre one))
    ∙ append_assoc pre one (numbers_from (suc i) n)

tracker_of : Option FastPath → Option Tracker
tracker_of none = none
tracker_of (some fp) = some fp.tracker

-- The tracker behind a pointer of the table.
tracker_at : List FastPath → Option ℕ → Option Tracker
unfolding tracker_of
tracker_at fps none = none
tracker_at fps (some i) = tracker_of (get_elem? fps i)

pub current_trackers : List FastPath → List (Option ℕ) → List (Option Tracker)
unfolding tracker_at
current_trackers fps [] = []
current_trackers fps (p ∷ ps) = tracker_at fps p ∷ current_trackers fps ps

-- The connections of all fast paths.
pub all_connections : List FastPath → List Connection
all_connections [] = []
all_connections (fp ∷ fps) = get_all_connections fp.tracker ++ all_connections fps

get_elem?-append :
    (pre fps : List FastPath) (fp : FastPath) (i : ℕ)
    → length pre ≡ i
    → get_elem? (pre ++ fp ∷ fps) i ≡ some fp
get_elem?-append [] fps fp zero h = refl
get_elem?-append [] fps fp (suc i) h = absurd (omega (arith, h))
get_elem?-append (p ∷ pre) fps fp zero h = absurd (omega (arith, h))
get_elem?-append (p ∷ pre) fps fp (suc i) h = get_elem?-append pre fps fp i (omega (arith, h))

tracker_at-found :
    (fps : List FastPath) (i : ℕ) (fp : FastPath)
    → get_elem? fps i ≡ some fp
    → tracker_at fps (some i) ≡ some fp.tracker
unfolding tracker_at tracker_of
tracker_at-found fps i fp e = ap tracker_of e

current_trackers-all :
    (fps pre all : List FastPath) (i : ℕ)
    → length pre ≡ i
    → all ≡ pre ++ fps
    → connections_of (current_trackers all (numbers_from i (length fps))) ≡ all_connections fps
unfolding current_trackers all_connections numbers_from connections_of
current_trackers-all [] pre all i h e = refl
current_trackers-all (fp ∷ fps) pre all i h e =
    let found = ap (λ a. get_elem? a i) e ∙ get_elem?-append pre fps fp i h in
    let one = fp ∷ [] in
    let rest =
      current_trackers-all fps (pre ++ one) all (suc i) (omega (arith, h, length-append pre one))
        (e ∙ sym (append_assoc pre one fps)) in
    let others = current_trackers all (numbers_from (suc i) (length fps)) in
    ap (λ t. connections_of (t ∷ others)) (tracker_at-found all i fp found)
    ∙ ap (λ cs. get_all_connections fp.tracker ++ cs) rest

length-queue_ptrs : (i : ℕ) (fps : List FastPath) → length (queue_ptrs i fps) ≡ length fps
unfolding queue_ptrs
length-queue_ptrs i [] = refl
length-queue_ptrs i (fp ∷ fps) = ap suc (length-queue_ptrs (suc i) fps)

length-fast_paths_from : (i n : ℕ) → length (fast_paths_from i n) ≡ n
unfolding fast_paths_from
length-fast_paths_from i zero = refl
length-fast_paths_from i (suc n) = ap suc (length-fast_paths_from (suc i) n)

-- The report on a table in which all fast paths are registered.
get_global_stats-registered :
    (sort : List (Bytes × ℕ) → List (Bytes × ℕ)) (n : ℕ) (fps : List FastPath)
    → length fps ≡ n
    → (get_global_stats sort
        (current_trackers fps (register_from 0 n (no_trackers n)))).total_active_connections
      ≡ length (all_connections fps) % 2 ^ 64
get_global_stats-registered sort n fps h =
    let e =
      ap (λ t. connections_of (current_trackers fps t)) (register_from-all n 0 [] refl)
      ∙ ap (λ k. connections_of (current_trackers fps (numbers_from 0 k))) (sym h)
      ∙ current_trackers-all fps [] fps 0 refl refl in
    (get_global_stats-sums sort (current_trackers fps (register_from 0 n (no_trackers n)))
      unknown).0
    ∙ ap (λ cs. length cs % 2 ^ 64) e

-- If there is a load balancer and a fast path for each and the rules can be read, then the
-- initialization succeeds with these rules, and a packet is dispatched to the queue of its worker.
-- For any later state `fps` of the fast paths, the report counts all connections that they hold,
-- modulo 2 ^ 64.
pub initialize-reports :
    (std : StdHash) (t : FiveTuple) (num_lbs fps_per_lb : ℕ) (rules_file : Bytes)
    (file : Option Bytes) (r : RuleManager) (sort : List (Bytes × ℕ) → List (Bytes × ℕ))
    (fps : List FastPath)
    → 0 < num_lbs
    → 0 < fps_per_lb
    → first_rules rules_file file ≡ ok r
    → length fps ≡ num_lbs * fps_per_lb
    → (s : Components) × (initialize num_lbs fps_per_lb rules_file file ≡ ok s)
      × (s.rule_manager ≡ r)
      × (dispatch std s.load_balancers num_lbs t
          ≡ item_at (queue_ptrs 0 s.fast_paths) (worker std num_lbs fps_per_lb t))
      × ((get_global_stats sort (current_trackers fps s.trackers)).total_active_connections
          ≡ length (all_connections fps) % 2 ^ 64)
unfolding initialize
initialize-reports std t n m rules_file file r sort fps a b e h =
    let all = fast_paths_from 0 (n * m) in
    let room = length-queue_ptrs 0 all ∙ length-fast_paths_from 0 (n * m) in
    let (lbs, made, sent) =
      dispatch-worker std n m (queue_ptrs 0 all) t a b (omega (arith, room)) in
    let s : Components = record {
      rule_manager = r;
      fast_paths = all;
      load_balancers = lbs;
      trackers = register_from 0 (n * m) (no_trackers (n * m));
    } in
    (s, rw (e, made) refl, refl, sent, get_global_stats-registered sort (n * m) fps h)
