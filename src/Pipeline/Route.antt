-- ===== src/Pipeline/Route.antt =====
-- Where each job of the engine stands: in the queues of its own load balancer and worker.
use deep_packet_analyzer.Base.{
  ℕ, ◌+◌, ◌/◌, ◌<◌, ◌≡◌, inl, inr, refl, ap, subst, sym, ◌∙◌, false, List, [], ◌∷◌, ◌++◌, Option,
  none, some, ◌==◌, if◌then◌else◌, arith, All, All-append, Bool-cases, Option-cases, append-nil,
}
use native.Mathlib.Nat.{mod-lt, div-eq_of_lt, mul-add-div_right}
use deep_packet_analyzer.Connection.{PacketJob, PacketAction, drop, forward, inspect, log_only}
use deep_packet_analyzer.Balance.{worker, select_fp}
use deep_packet_analyzer.Queue.{Queue, push, pop_with_timeout}
use deep_packet_analyzer.FastPath.{is_drop}
use deep_packet_analyzer.Engine.{DpiStats, handle_output}
use deep_packet_analyzer.Pipeline.{
  Config, Engine, set_at, lb_of, fp_of, Step, read, take_job, send_job, process, idle, deliver,
  write,
}
use deep_packet_analyzer.Pipeline.Stages.{
  set_at_here, set_at_other, push-items, push-max_size, pop-items,
}

-- The worker of a job, counted over all load balancers.
abbrev pub worker_of : Config → PacketJob → ℕ
worker_of cfg job = worker cfg.std cfg.num_load_balancers cfg.fps_per_lb job.tuple

pub fp_of-lb_of :
    (cfg : Config) (job : PacketJob) → fp_of cfg (lb_of cfg job) job ≡ worker_of cfg job
unfolding fp_of lb_of worker
fp_of-lb_of cfg job = refl

pub worker_of-lb_of :
    (cfg : Config) (job : PacketJob)
    → 0 < cfg.fps_per_lb
    → worker_of cfg job / cfg.fps_per_lb ≡ lb_of cfg job
unfolding lb_of worker select_fp
worker_of-lb_of cfg job h =
    mul-add-div_right h (lb_of cfg job) (select_fp cfg.std cfg.fps_per_lb job.tuple)
    ∙ ap (λ n. lb_of cfg job + n) (div-eq_of_lt (mod-lt _ h))
    ∙ omega arith

-- The jobs of worker `w` among some.
pub jobs_of : Config → ℕ → List PacketJob → List PacketJob
jobs_of cfg w [] = []
jobs_of cfg w (job ∷ jobs) =
    let rest = jobs_of cfg w jobs in if worker_of cfg job == w then job ∷ rest else rest

pub jobs_of-append :
    (cfg : Config) (w : ℕ) (xs ys : List PacketJob)
    → jobs_of cfg w (xs ++ ys) ≡ jobs_of cfg w xs ++ jobs_of cfg w ys
unfolding jobs_of
jobs_of-append cfg w [] ys = refl
jobs_of-append cfg w (x ∷ xs) ys = ground (arith, jobs_of-append cfg w xs ys)

pub jobs_of-nil : (cfg : Config) (w : ℕ) → jobs_of cfg w [] ≡ []
unfolding jobs_of
jobs_of-nil cfg w = refl

pub jobs_of_mine :
    (cfg : Config) (w : ℕ) (job : PacketJob) (jobs : List PacketJob)
    → worker_of cfg job ≡ w
    → jobs_of cfg w (job ∷ jobs) ≡ job ∷ jobs_of cfg w jobs
unfolding jobs_of
jobs_of_mine cfg w job jobs h = ground (arith, h)

pub jobs_of_other :
    (cfg : Config) (w : ℕ) (job : PacketJob) (jobs : List PacketJob)
    → (worker_of cfg job == w) ≡ false
    → jobs_of cfg w (job ∷ jobs) ≡ jobs_of cfg w jobs
unfolding jobs_of
jobs_of_other cfg w job jobs h = ground (arith, h)

abbrev IsFor : (PacketJob → ℕ) → ℕ → PacketJob → Type 0
IsFor f i job = f job ≡ i

-- All queues are open, and hold jobs of their load balancer or worker only.
pub record IsRouted (cfg : Config) (s : Engine) : Type 0 where
  pub lbs_open : (i : ℕ) → (s.lb_queues i).is_shutdown ≡ false
  pub fps_open : (w : ℕ) → (s.fp_queues w).is_shutdown ≡ false
  pub out_open : s.output_queue.is_shutdown ≡ false
  pub queued : (i : ℕ) → All (IsFor (lb_of cfg) i) (s.lb_queues i).items
  pub held : (i : ℕ) → All (IsFor (lb_of cfg) i) (s.carried i)
  pub waiting : (w : ℕ) → All (IsFor (worker_of cfg) w) (s.fp_queues w).items
  pub settled :
      (w : ℕ) → All (λ (d : PacketJob × PacketAction). worker_of cfg d.0 ≡ w) (s.decided w)

-- A property of every number survives a write at one.
pub at_all {ℓ κ} :
    {A : Type ℓ} (P : ℕ → A → Type κ) (i : ℕ) (a : A) (f : ℕ → A)
    → P i a
    → ((k : ℕ) → P k (f k))
    → (k : ℕ) → P k (set_at i a f k)
at_all P i a f p h k = elim (Bool-cases (k == i)) [
  | inl e ↦ subst (P k) (sym (set_at_here i a f k e)) (subst (λ j. P j a) (ground (arith, e)) p)
  | inr e ↦ subst (P k) (sym (set_at_other i a f k e)) (h k)
]

-- What the engine does with a decision: a job that is not dropped goes to the output queue.
Delivered :
    Queue PacketJob → PacketJob → PacketAction → Option (DpiStats × Queue PacketJob) → Type 0
Delivered out job action none = Unit
Delivered out job action (some (st', out')) =
    (out'.items ≡ out.items ++ (if is_drop action then [] else job ∷ []))
    × (out'.is_shutdown ≡ false)
    × (out'.max_size ≡ out.max_size)

forward-Delivered :
    (st : DpiStats) (out : Queue PacketJob) (job : PacketJob) (action : PacketAction)
    → is_drop action ≡ false
    → out.is_shutdown ≡ false
    → Delivered out job action (handle_output st out job action)
unfolding Delivered handle_output
forward-Delivered st out job drop n o = absurd (ground (arith, n))
forward-Delivered st out job _ n o = elim (Option-cases (push out job)) [
  | inl e ↦ rw (e, Delivered) tt
  | inr (q, e) ↦
      let (a, b) = push-items out q job e o in rw (e, Delivered) (a, b, push-max_size out q job e)
]

handle_output-Delivered :
    (st : DpiStats) (out : Queue PacketJob) (job : PacketJob) (action : PacketAction)
    → out.is_shutdown ≡ false
    → Delivered out job action (handle_output st out job action)
unfolding Delivered handle_output
handle_output-Delivered st out job drop o = (sym (append-nil out.items), o, refl)
handle_output-Delivered st out job forward o = forward-Delivered st out job forward refl o
handle_output-Delivered st out job inspect o = forward-Delivered st out job inspect refl o
handle_output-Delivered st out job log_only o = forward-Delivered st out job log_only refl o

pub handle_output-queue :
    (st st' : DpiStats) (out out' : Queue PacketJob) (job : PacketJob) (action : PacketAction)
    → handle_output st out job action ≡ some (st', out')
    → out.is_shutdown ≡ false
    → (out'.items ≡ out.items ++ (if is_drop action then [] else job ∷ []))
      × (out'.is_shutdown ≡ false)
      × (out'.max_size ≡ out.max_size)
unfolding Delivered
handle_output-queue st st' out out' job action e o =
    subst (Delivered out job action) e (handle_output-Delivered st out job action o)

-- A push of a job that belongs to the queue, and a pop.
pub push-All :
    (P : PacketJob → Type 0) (q q' : Queue PacketJob) (job : PacketJob)
    → push q job ≡ some q'
    → q.is_shutdown ≡ false
    → All P q.items
    → P job
    → All P q'.items
push-All P q q' job e o h p =
    subst (All P) (sym (push-items q q' job e o).0) (All-append P q.items (job ∷ []) h (p, tt))

pub pop-All :
    (P : PacketJob → Type 0) (q q' : Queue PacketJob) (job : PacketJob)
    → pop_with_timeout q ≡ (some job, q')
    → All P q.items
    → P job × All P q'.items
pop-All P q q' job e h = subst (All P) (pop-items q q' job e).0 h

-- The two facts of a queue with its number.
abbrev IsOpen : ℕ → Queue PacketJob → Type 0
IsOpen i q = q.is_shutdown ≡ false

abbrev HoldsFor : (PacketJob → ℕ) → ℕ → Queue PacketJob → Type 0
HoldsFor f i q = All (IsFor f i) q.items

abbrev AreFor : Config → ℕ → List PacketJob → Type 0
AreFor cfg i jobs = All (IsFor (lb_of cfg) i) jobs

abbrev AreSettled : Config → ℕ → List (PacketJob × PacketAction) → Type 0
AreSettled cfg w ds = All (λ (d : PacketJob × PacketAction). worker_of cfg d.0 ≡ w) ds

-- Every step keeps the jobs where they belong.
pub Step-IsRouted :
    (cfg : Config) {s s' : Engine} → Step cfg s s' → IsRouted cfg s → IsRouted cfg s'
Step-IsRouted cfg (read {s} {job} {jobs} {q} e p) r =
    let i = lb_of cfg job in
    let o = r.lbs_open i in
    record {
      lbs_open = at_all IsOpen i q s.lb_queues (push-items (s.lb_queues i) q job p o).1 r.lbs_open;
      fps_open = r.fps_open;
      out_open = r.out_open;
      queued =
          at_all (HoldsFor (lb_of cfg)) i q s.lb_queues
            (push-All (IsFor (lb_of cfg) i) (s.lb_queues i) q job p o (r.queued i) refl) r.queued;
      held = r.held;
      waiting = r.waiting;
      settled = r.settled;
    }
Step-IsRouted cfg (take_job {s} i {job} {q} b e p) r =
    let (k, l) = pop-All (IsFor (lb_of cfg) i) (s.lb_queues i) q job p (r.queued i) in
    record {
      lbs_open =
          at_all IsOpen i q s.lb_queues ((pop-items (s.lb_queues i) q job p).1 ∙ r.lbs_open i)
            r.lbs_open;
      fps_open = r.fps_open;
      out_open = r.out_open;
      queued = at_all (HoldsFor (lb_of cfg)) i q s.lb_queues l r.queued;
      held = at_all (AreFor cfg) i (job ∷ []) s.carried (k, tt) r.held;
      waiting = r.waiting;
      settled = r.settled;
    }
Step-IsRouted cfg (send_job {s} i {job} {q} b e p) r =
    let w = fp_of cfg i job in
    let o = r.fps_open w in
    let k = (subst (AreFor cfg i) e (r.held i)).0 in
    let m : worker_of cfg job ≡ w = sym (fp_of-lb_of cfg job) ∙ ap (λ x. fp_of cfg x job) k in
    record {
      lbs_open = r.lbs_open;
      fps_open = at_all IsOpen w q s.fp_queues (push-items (s.fp_queues w) q job p o).1 r.fps_open;
      out_open = r.out_open;
      queued = r.queued;
      held = at_all (AreFor cfg) i [] s.carried tt r.held;
      waiting =
          at_all (HoldsFor (worker_of cfg)) w q s.fp_queues
            (push-All (IsFor (worker_of cfg) w) (s.fp_queues w) q job p o (r.waiting w) m)
            r.waiting;
      settled = r.settled;
    }
Step-IsRouted cfg (process {s} w {job} {q} created pos now {action} {fp} b e p x) r =
    let (k, l) = pop-All (IsFor (worker_of cfg) w) (s.fp_queues w) q job p (r.waiting w) in
    record {
      lbs_open = r.lbs_open;
      fps_open =
          at_all IsOpen w q s.fp_queues ((pop-items (s.fp_queues w) q job p).1 ∙ r.fps_open w)
            r.fps_open;
      out_open = r.out_open;
      queued = r.queued;
      held = r.held;
      waiting = at_all (HoldsFor (worker_of cfg)) w q s.fp_queues l r.waiting;
      settled = at_all (AreSettled cfg) w ((job, action) ∷ []) s.decided (k, tt) r.settled;
    }
Step-IsRouted cfg (idle {s} w now b e p) r = record {
  lbs_open = r.lbs_open;
  fps_open = r.fps_open;
  out_open = r.out_open;
  queued = r.queued;
  held = r.held;
  waiting = r.waiting;
  settled = r.settled;
}
Step-IsRouted cfg (deliver {s} w {job} {action} {stats} {q} b e p) r = record {
  lbs_open = r.lbs_open;
  fps_open = r.fps_open;
  out_open = (handle_output-queue s.stats stats s.output_queue q job action p r.out_open).1;
  queued = r.queued;
  held = r.held;
  waiting = r.waiting;
  settled = at_all (AreSettled cfg) w [] s.decided tt r.settled;
}
Step-IsRouted cfg (write {s} {job} {q} p) r = record {
  lbs_open = r.lbs_open;
  fps_open = r.fps_open;
  out_open = (pop-items s.output_queue q job p).1 ∙ r.out_open;
  queued = r.queued;
  held = r.held;
  waiting = r.waiting;
  settled = r.settled;
}
