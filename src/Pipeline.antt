-- ===== src/Pipeline.antt =====
-- The threads of the engine and the queues between them: the loops `readerThreadFunc` and
-- `outputThreadFunc` of src/dpi_engine.cpp, `LoadBalancer::run` of src/load_balancer.cpp and
-- `FastPathProcessor::run` of src/fast_path.cpp, while the engine runs. A step is what one thread
-- does between two of its calls on queues; any order of the steps of all threads is a run.
pub mod Stages
pub mod Route
pub mod Order
pub mod Sequential
pub mod Work
pub mod Fit
pub mod Room
pub mod Progress
use deep_packet_analyzer.Base.{
  ℕ, ◌+◌, ◌*◌, ◌<◌, ◌≡◌, List, [], ◌∷◌, ◌++◌, Option, none, some, ◌==◌, if◌then◌else◌, Result, ok,
}
use deep_packet_analyzer.Tuple.{StdHash}
use deep_packet_analyzer.Connection.{PacketJob, PacketAction}
use deep_packet_analyzer.Rules.{RuleManager}
use deep_packet_analyzer.Queue.{Queue, push, pop_with_timeout}
use deep_packet_analyzer.Balance.{lb_index, select_fp}
use deep_packet_analyzer.FastPath.Inspect.{FastPath}
use deep_packet_analyzer.FastPath.{run_packet, run_idle}
use deep_packet_analyzer.Engine.{DpiStats, handle_output}

-- `DPIEngine::Config`, with the hash of the library and the rules.
pub record Config : Type 0 where
  pub std : StdHash
  pub num_load_balancers : ℕ
  pub fps_per_lb : ℕ
  pub rules : Option RuleManager

-- The state of the engine. `input` are the jobs that the reader still has to push; load balancers
-- and workers have their numbers, and `carried` and `decided` are the job that a load balancer or
-- a worker holds in its local variable.
pub record Engine : Type 0 where
  pub input : List PacketJob
  pub lb_queues : ℕ → Queue PacketJob
  pub carried : ℕ → List PacketJob
  pub fp_queues : ℕ → Queue PacketJob
  pub workers : ℕ → FastPath
  pub decided : ℕ → List (PacketJob × PacketAction)
  pub stats : DpiStats
  pub output_queue : Queue PacketJob
  pub written : List PacketJob

abbrev pub set_at {ℓ} : {A : Type ℓ} → ℕ → A → (ℕ → A) → ℕ → A
set_at i a f k = if k == i then a else f k

-- The load balancer of a packet, and the worker that load balancer `i` sends it to.
unfoldable pub lb_of : Config → PacketJob → ℕ
lb_of cfg job = lb_index cfg.std cfg.num_load_balancers job.tuple

unfoldable pub fp_of : Config → ℕ → PacketJob → ℕ
fp_of cfg i job = i * cfg.fps_per_lb + select_fp cfg.std cfg.fps_per_lb job.tuple

abbrev pub num_workers : Config → ℕ
num_workers cfg = cfg.num_load_balancers * cfg.fps_per_lb

-- A thread takes a step only if the engine has it.
pub data Step (cfg : Config) : Engine → Engine → Type 0 where
  -- The reader pushes the next job.
  read :
      {s : Engine} {job : PacketJob} {jobs : List PacketJob} {q : Queue PacketJob}
      → s.input ≡ job ∷ jobs
      → push (s.lb_queues (lb_of cfg job)) job ≡ some q
      → Step cfg s (record s { input = jobs; lb_queues = set_at (lb_of cfg job) q s.lb_queues })
  -- A load balancer pops a job.
  take_job :
      {s : Engine} (i : ℕ) {job : PacketJob} {q : Queue PacketJob}
      → i < cfg.num_load_balancers
      → s.carried i ≡ []
      → pop_with_timeout (s.lb_queues i) ≡ (some job, q)
      → Step cfg s
          (record s { lb_queues = set_at i q s.lb_queues; carried = set_at i (job ∷ []) s.carried })
  -- It pushes the job to one of its workers.
  send_job :
      {s : Engine} (i : ℕ) {job : PacketJob} {q : Queue PacketJob}
      → i < cfg.num_load_balancers
      → s.carried i ≡ job ∷ []
      → push (s.fp_queues (fp_of cfg i job)) job ≡ some q
      → Step cfg s (record s {
        carried = set_at i [] s.carried;
        fp_queues = set_at (fp_of cfg i job) q s.fp_queues;
      })
  -- A worker pops a job and decides it.
  process :
      {s : Engine} (w : ℕ) {job : PacketJob} {q : Queue PacketJob} (created pos now : ℕ)
      {action : PacketAction} {fp : FastPath}
      → w < num_workers cfg
      → s.decided w ≡ []
      → pop_with_timeout (s.fp_queues w) ≡ (some job, q)
      → run_packet cfg.rules (s.workers w) created pos now job ≡ ok (action, fp)
      → Step cfg s (record s {
        fp_queues = set_at w q s.fp_queues;
        workers = set_at w fp s.workers;
        decided = set_at w ((job, action) ∷ []) s.decided;
      })
  -- It gets no job in time.
  idle :
      {s : Engine} (w : ℕ) {q : Queue PacketJob} (now : ℕ)
      → w < num_workers cfg
      → s.decided w ≡ []
      → pop_with_timeout (s.fp_queues w) ≡ (none, q)
      → Step cfg s (record s { workers = set_at w (run_idle (s.workers w) now) s.workers })
  -- It hands its decision to the engine.
  deliver :
      {s : Engine} (w : ℕ) {job : PacketJob} {action : PacketAction} {stats : DpiStats}
      {q : Queue PacketJob}
      → w < num_workers cfg
      → s.decided w ≡ (job, action) ∷ []
      → handle_output s.stats s.output_queue job action ≡ some (stats, q)
      → Step cfg s (record s { decided = set_at w [] s.decided; stats = stats; output_queue = q })
  -- The output thread pops a job and writes it.
  write :
      {s : Engine} {job : PacketJob} {q : Queue PacketJob}
      → pop_with_timeout s.output_queue ≡ (some job, q)
      → Step cfg s (record s { output_queue = q; written = s.written ++ job ∷ [] })

-- Any number of steps.
pub data Reach (cfg : Config) (s0 : Engine) : Engine → Type 0 where
  start : Reach cfg s0 s0
  step : {s s' : Engine} → Reach cfg s0 s → Step cfg s s' → Reach cfg s0 s'
