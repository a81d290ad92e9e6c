-- ===== src/Pipeline/Work.antt =====
-- The work that is left in the engine: how many steps its jobs still have to take at most.
use deep_packet_analyzer.Base.{
  ℕ, zero, suc, ◌+◌, ◌*◌, ◌<◌, ◌≤◌, ◌≡◌, inl, inr, refl, ap, ◌∙◌, false, [], ◌∷◌, some, ◌==◌,
  length, length-append, arith, Bool-cases, if◌then◌else◌,
}
use deep_packet_analyzer.Connection.{PacketJob, PacketAction}
use deep_packet_analyzer.FastPath.Inspect.{FastPath}
use deep_packet_analyzer.FastPath.{is_drop}
use deep_packet_analyzer.Queue.{Queue, push, pop_with_timeout}
use deep_packet_analyzer.Balance.{lb_index, select_fp}
use deep_packet_analyzer.Tuple.{hash}
use native.Mathlib.Nat.{mod-lt, mul-le-mul_right, suc-mul}
use deep_packet_analyzer.Pipeline.{
  Config, Engine, num_workers, set_at, lb_of, fp_of, Step, read, take_job, send_job, process, idle,
  deliver, write,
}
use deep_packet_analyzer.Pipeline.Stages.{set_at_here, set_at_other, push-items, pop-items}
use deep_packet_analyzer.Pipeline.Route.{IsRouted, handle_output-queue}

-- The sum of a measure over the first `n` threads.
unfoldable pub load {ℓ} : {A : Type ℓ} → (A → ℕ) → ℕ → (ℕ → A) → ℕ
load m zero f = 0
load m (suc n) f = m (f n) + load m n f

module _ {ℓ} {A : Type ℓ} (m : A → ℕ) where
  load_above : (n i : ℕ) (a : A) (f : ℕ → A) → n ≤ i → load m n (set_at i a f) ≡ load m n f
  unfolding load
  load_above zero i a f h = refl
  load_above (suc n) i a f h =
      let other = ap m (set_at_other i a f n (ground (arith, h))) in
      omega (arith, other, load_above n i a f (omega (arith, h)))

  -- A write at one thread.
  load-set_at :
      (n i : ℕ) (a : A) (f : ℕ → A) → i < n → load m n (set_at i a f) + m (f i) ≡ load m n f + m a
  unfolding load
  load-set_at zero i a f h = absurd (omega (arith, h))
  load-set_at (suc n) i a f h = elim (Bool-cases (n == i)) [
    | inl e ↦
        let k : n ≡ i = ground (arith, e) in
        let here = ap m (set_at_here i a f n e) in
        omega (arith, here, ap (λ j. m (f j)) k, load_above n i a f (omega (arith, k)))
    | inr e ↦
        let other = ap m (set_at_other i a f n e) in
        omega (arith, other, load-set_at n i a f (ground (arith, e, h)))
  ]

  -- Where there is a sum there is a summand.
  pub load-positive : (n : ℕ) (f : ℕ → A) → 0 < load m n f → (i : ℕ) × (i < n) × (0 < m (f i))
  unfolding load
  load-positive zero f h = absurd (omega (arith, h))
  load-positive (suc n) f h = elim (Bool-cases (m (f n) == 0)) [
    | inl e ↦ let (i, l, p) = load-positive n f (ground (arith, e, h)) in (i, omega (arith, l), p)
    | inr e ↦ (n, omega arith, ground (arith, e))
  ]

abbrev pub queued : Queue PacketJob → ℕ
queued q = length q.items

-- A job with the reader has six steps before it, one in the output queue has one.
unfoldable pub work : Config → Engine → ℕ
unfolding load
work cfg s =
    6 * length s.input
    + (5 * load queued cfg.num_load_balancers s.lb_queues
        + (4 * load length cfg.num_load_balancers s.carried
            + (3 * load queued (num_workers cfg) s.fp_queues
                + (2 * load length (num_workers cfg) s.decided + queued s.output_queue))))

pub lb_of-lt :
    (cfg : Config) (job : PacketJob)
    → 0 < cfg.num_load_balancers
    → lb_of cfg job < cfg.num_load_balancers
unfolding lb_of lb_index
lb_of-lt cfg job h = mod-lt (hash cfg.std job.tuple) h

mul_below : (i n m k : ℕ) → i < n → k < m → i * m + k < n * m
mul_below i n m k h l = omega (arith, mul-le-mul_right m h, suc-mul i m, l)

pub fp_of-lt :
    (cfg : Config) (i : ℕ) (job : PacketJob)
    → i < cfg.num_load_balancers
    → 0 < cfg.fps_per_lb
    → fp_of cfg i job < num_workers cfg
unfolding fp_of select_fp
fp_of-lt cfg i job h p =
    mul_below i cfg.num_load_balancers cfg.fps_per_lb (select_fp cfg.std cfg.fps_per_lb job.tuple) h
      (mod-lt (hash cfg.std job.tuple) p)

-- Every step but that of an idle worker.
unfoldable pub IsMove : {cfg : Config} {s s' : Engine} → Step cfg s s' → Type 0
IsMove (idle w now b e p) = ⊥
IsMove _ = Unit

length-push :
    (q q' : Queue PacketJob) (job : PacketJob)
    → push q job ≡ some q'
    → q.is_shutdown ≡ false
    → queued q' ≡ queued q + 1
length-push q q' job e o =
    ap length (push-items q q' job e o).0 ∙ length-append q.items (job ∷ []) ∙ omega arith

length-pop :
    (q q' : Queue PacketJob) (job : PacketJob)
    → pop_with_timeout q ≡ (some job, q')
    → queued q ≡ queued q' + 1
length-pop q q' job e = ap length (pop-items q q' job e).0 ∙ omega arith

length-passed :
    (job : PacketJob) (action : PacketAction) → length (if is_drop action then [] else job ∷ []) ≤ 1
length-passed job action = ground arith

-- A move takes work away.
pub Step-work :
    (cfg : Config) {s s' : Engine}
    → 0 < cfg.num_load_balancers
    → 0 < cfg.fps_per_lb
    → IsRouted cfg s
    → (t : Step cfg s s') → IsMove t
    → work cfg s' < work cfg s
unfolding work IsMove
Step-work cfg n m r (read {s} {job} {jobs} {q} e p) k =
    let i = lb_of cfg job in
    let grown = length-push (s.lb_queues i) q job p (r.lbs_open i) in
    let put = load-set_at queued cfg.num_load_balancers i q s.lb_queues (lb_of-lt cfg job n) in
    omega (arith, ap length e, grown, put)
Step-work cfg n m r (take_job {s} i {job} {q} b e p) k =
    let shrunk = length-pop (s.lb_queues i) q job p in
    let got = load-set_at queued cfg.num_load_balancers i q s.lb_queues b in
    let held = load-set_at length cfg.num_load_balancers i (job ∷ []) s.carried b in
    omega (arith, ap length e, shrunk, got, held)
Step-work cfg n m r (send_job {s} i {job} {q} b e p) k =
    let w = fp_of cfg i job in
    let grown = length-push (s.fp_queues w) q job p (r.fps_open w) in
    let put = load-set_at queued (num_workers cfg) w q s.fp_queues (fp_of-lt cfg i job b m) in
    let gone = load-set_at length cfg.num_load_balancers i [] s.carried b in
    omega (arith, ap length e, grown, put, gone)
Step-work cfg n m r (process {s} w {job} {q} created pos now {action} {fp} b e p x) k =
    let shrunk = length-pop (s.fp_queues w) q job p in
    let got = load-set_at queued (num_workers cfg) w q s.fp_queues b in
    let held = load-set_at length (num_workers cfg) w ((job, action) ∷ []) s.decided b in
    omega (arith, ap length e, shrunk, got, held)
Step-work cfg n m r (idle w now b e p) k = absurd k
Step-work cfg n m r (deliver {s} w {job} {action} {stats} {q} b e p) k =
    let o = handle_output-queue s.stats stats s.output_queue q job action p r.out_open in
    let passed = if is_drop action then [] else job ∷ [] in
    let grown = ap length o.0 ∙ length-append s.output_queue.items passed in
    let gone = load-set_at length (num_workers cfg) w [] s.decided b in
    omega (arith, ap length e, grown, length-passed job action, gone)
Step-work cfg n m r (write {s} {job} {q} p) k = omega (arith, length-pop s.output_queue q job p)

-- An idle step leaves the work as it was: the state of a worker does not count.
idle-work :
    (cfg : Config) (s : Engine) (workers : ℕ → FastPath)
    → work cfg (record s { workers = workers }) ≡ work cfg s
unfolding work
idle-work cfg s workers = refl
