-- ===== src/Engine/Setup.antt =====
-- `initialize`, `loadRules` and `saveRules` of src/dpi_engine.cpp, with the constructors of
-- `FPManager` and `FastPathProcessor` (src/fast_path.cpp). Pointers to the queue and the tracker of
-- a fast path are its number; a file is its text, or `none` if it cannot be opened.
use deep_packet_analyzer.Base.{
  ℕ, zero, suc, ◌*◌, Bool, true, false, List, [], ◌∷◌, Option, none, some, Bytes, Result, ok, ◌>>=◌,
  if◌then◌else◌,
}
use deep_packet_analyzer.Balance.{LoadBalancer, make_balancers}
use deep_packet_analyzer.FastPath.Inspect.{FastPath}
use deep_packet_analyzer.Report.{register_tracker}
use deep_packet_analyzer.Rules.{RuleManager, no_rules, is_empty}
use deep_packet_analyzer.Rules.File.{load_rules, save_rules}
use deep_packet_analyzer.Tracker.{new_tracker}

-- `RuleManager::loadRules`, its answer included.
unfoldable pub load_file : RuleManager → Option Bytes → Result (Bool × RuleManager)
load_file r none = ok (false, r)
load_file r (some text) = do r' ← load_rules r text; ok (true, r')

unfoldable pub engine_load_rules :
    Option RuleManager → Option Bytes → Result (Bool × Option RuleManager)
unfolding load_file
engine_load_rules none file = ok (false, none)
engine_load_rules (some r) file = do (loaded, r') ← load_file r file; ok (loaded, some r')

-- The answer and what the file holds afterwards, given what it held when it can be opened.
unfoldable pub engine_save_rules : Option RuleManager → Option Bytes → Bool × Option Bytes
engine_save_rules none file = (false, file)
engine_save_rules (some r) none = (false, none)
engine_save_rules (some r) (some old) = (true, some (save_rules r))

unfoldable pub new_fast_path : ℕ → FastPath
unfolding new_tracker
new_fast_path fp_id = record {
  tracker = new_tracker fp_id 100000;
  packets_processed = 0;
  packets_forwarded = 0;
  packets_dropped = 0;
  sni_extractions = 0;
  classification_hits = 0;
}

-- The loop of the constructor of `FPManager`, from a number on.
unfoldable pub fast_paths_from : ℕ → ℕ → List FastPath
unfolding new_fast_path
fast_paths_from i zero = []
fast_paths_from i (suc n) = new_fast_path i ∷ fast_paths_from (suc i) n

-- `getQueuePtrs`, from a number on.
unfoldable pub queue_ptrs : ℕ → List FastPath → List ℕ
queue_ptrs i [] = []
queue_ptrs i (fp ∷ fps) = i ∷ queue_ptrs (suc i) fps

-- `trackers_.resize(num_fps, nullptr)`.
unfoldable pub no_trackers : ℕ → List (Option ℕ)
no_trackers zero = []
no_trackers (suc n) = none ∷ no_trackers n

-- The loop of `initialize` that registers the trackers.
unfoldable pub register_from : ℕ → ℕ → List (Option ℕ) → List (Option ℕ)
unfolding register_tracker
register_from i zero table = table
register_from i (suc n) table = register_from (suc i) n (register_tracker table i i)

pub record Components : Type 0 where
  pub rule_manager : RuleManager
  pub fast_paths : List FastPath
  pub load_balancers : List (LoadBalancer ℕ)
  pub trackers : List (Option ℕ)

-- The rules that `initialize` starts from.
unfoldable pub first_rules : Bytes → Option Bytes → Result RuleManager
unfolding load_file
first_rules rules_file file =
    if is_empty rules_file then ok no_rules else (do (loaded, r) ← load_file no_rules file; ok r)

unfoldable pub initialize : ℕ → ℕ → Bytes → Option Bytes → Result Components
unfolding first_rules fast_paths_from queue_ptrs no_trackers register_from
initialize num_lbs fps_per_lb rules_file file = do
  r ← first_rules rules_file file
  lbs ← make_balancers num_lbs fps_per_lb (queue_ptrs 0 (fast_paths_from 0 (num_lbs * fps_per_lb)))
  ok (record {
    rule_manager = r;
    fast_paths = fast_paths_from 0 (num_lbs * fps_per_lb);
    load_balancers = lbs;
    trackers = register_from 0 (num_lbs * fps_per_lb) (no_trackers (num_lbs * fps_per_lb));
  })
