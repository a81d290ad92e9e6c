-- ===== src/Pipeline/Progress.antt =====
-- The threads of the engine never wait for each other in a circle.
use deep_packet_analyzer.Base.{
  ℕ, ◌<◌, ◌≡◌, ◌⊎◌, inl, inr, refl, zero, suc, ap, subst, All, arith, ◌≤◌, ◌==◌, Bool-cases, List,
  [], ◌∷◌, some, length,
}
use deep_packet_analyzer.Connection.{
  PacketJob, PacketAction, drop, forward, inspect, log_only, add64,
}
use deep_packet_analyzer.Queue.{Queue, push}
use deep_packet_analyzer.Engine.{DpiStats, handle_output}
use deep_packet_analyzer.Pipeline.{
  Config, Engine, num_workers, lb_of, fp_of, Step, read, take_job, send_job, process, deliver,
  write, Reach, start, step,
}
use deep_packet_analyzer.Pipeline.Work.{
  load, load-positive, queued, work, lb_of-lt, fp_of-lt, IsMove, Step-work,
}
use deep_packet_analyzer.Pipeline.Room.{IsSingle, IsRoomy, Reach-IsRoomy}
use deep_packet_analyzer.Pipeline.Fit.{AreFit, Reach-AreFit}
use deep_packet_analyzer.FastPath.Safety.{IsJob}
use deep_packet_analyzer.FastPath.Fit.{run_packet-decides}
use deep_packet_analyzer.Pipeline.Stages.{push-empty, pop-cons}
use deep_packet_analyzer.Pipeline.Route.{IsRouted}
use deep_packet_analyzer.Pipeline.Sequential.{IsStarted, IsStarted-IsRouted, Reach-IsRouted}

-- A step that takes some of the work away.
abbrev pub Moves : Config → Engine → Type 0
Moves cfg s = (s' : Engine) × Step cfg s s' × (work cfg s' < work cfg s)

List-cases {ℓ} :
    {A : Type ℓ} (xs : List A) → (xs ≡ []) ⊎ ((x : A) × (rest : List A) × (xs ≡ x ∷ rest))
List-cases [] = inl refl
List-cases (x ∷ xs) = inr (x, xs, refl)

some_of : {A : Type 0} (xs : List A) → 0 < length xs → (x : A) × (rest : List A) × (xs ≡ x ∷ rest)
some_of [] h = absurd (omega (arith, h))
some_of (x ∷ xs) h = (x, xs, refl)

-- Where a thread holds anything, it holds one.
held : {A : Type 0} (xs : List A) → IsSingle xs → 0 < length xs → (x : A) × (xs ≡ x ∷ [])
held xs (inl e) h = absurd (omega (arith, h, ap length e))
held xs (inr found) h = found

if_positive : {P : Type 0} (n : ℕ) → (0 < n → P) → (n ≡ 0 → P) → P
if_positive zero some_case none_case = none_case refl
if_positive (suc n) some_case none_case = some_case (omega arith)

abbrev count_forwarded : DpiStats → PacketJob → DpiStats
count_forwarded st job = record st {
  forwarded_packets = add64 st.forwarded_packets 1;
  forwarded_bytes = add64 st.forwarded_bytes (length job.bytes);
}

-- With an empty output queue every decision is handed on.
handle_output-empty :
    (st : DpiStats) (out : Queue PacketJob) (job : PacketJob) (action : PacketAction)
    (q : Queue PacketJob)
    → push out job ≡ some q
    → (st' : DpiStats) × (q' : Queue PacketJob) × (handle_output st out job action ≡ some (st', q'))
unfolding handle_output
handle_output-empty st out job drop q e = (_, _, refl)
handle_output-empty st out job forward q e = (count_forwarded st job, q, rw (e, handle_output) refl)
handle_output-empty st out job inspect q e = (count_forwarded st job, q, rw (e, handle_output) refl)
handle_output-empty st out job log_only q e =
    (count_forwarded st job, q, rw (e, handle_output) refl)

module _ (cfg : Config) (s : Engine) (some_lb : 0 < cfg.num_load_balancers)
    (some_fp : 0 < cfg.fps_per_lb) (routed : IsRouted cfg s) (roomy : IsRoomy s)
    (fit : AreFit s) where
  moves : {s' : Engine} (t : Step cfg s s') → IsMove t → Moves cfg s
  moves {s'} t k = (s', t, Step-work cfg some_lb some_fp routed t k)

  output-Moves :
      (job : PacketJob) (jobs : List PacketJob) → s.output_queue.items ≡ job ∷ jobs → Moves cfg s
  unfolding IsMove
  output-Moves job jobs e = moves (write (pop-cons s.output_queue job jobs e)) tt

  decision-Moves :
      (w : ℕ) (d : PacketJob × PacketAction)
      → w < num_workers cfg
      → s.decided w ≡ d ∷ []
      → Moves cfg s
  unfolding IsMove
  decision-Moves w (job, action) b e = elim (List-cases s.output_queue.items) [
    | inr (x, xs, k) ↦ output-Moves x xs k
    | inl k ↦
        let (q, f) = push-empty s.output_queue job k roomy.out routed.out_open in
        let (st, q', g) = handle_output-empty s.stats s.output_queue job action q f in
        moves (deliver w b e g) tt
  ]

  fp-Moves :
      (w : ℕ) (job : PacketJob) (jobs : List PacketJob)
      → w < num_workers cfg
      → (s.fp_queues w).items ≡ job ∷ jobs
      → Moves cfg s
  unfolding IsMove
  fp-Moves w job jobs b e = elim (roomy.decided w) [
    | inr (d, k) ↦ decision-Moves w d b k
    | inl k ↦
        let p = pop-cons (s.fp_queues w) job jobs e in
        let j = (subst (All IsJob) e (fit.fps w)).0 in
        let (created, (out, f)) =
          run_packet-decides cfg.rules (s.workers w) job (fit.workers w) j in
        moves (process w created 0 0 b k p f) tt
  ]

  hand-Moves :
      (i : ℕ) (job : PacketJob) → i < cfg.num_load_balancers → s.carried i ≡ job ∷ [] → Moves cfg s
  unfolding IsMove
  hand-Moves i job b e =
      let v = fp_of cfg i job in
      elim (List-cases (s.fp_queues v).items) [
        | inr (x, xs, k) ↦ fp-Moves v x xs (fp_of-lt cfg i job b some_fp) k
        | inl k ↦
            let (q, f) = push-empty (s.fp_queues v) job k (roomy.fps v) (routed.fps_open v) in
            moves (send_job i b e f) tt
      ]

  lb-Moves :
      (i : ℕ) (job : PacketJob) (jobs : List PacketJob)
      → i < cfg.num_load_balancers
      → (s.lb_queues i).items ≡ job ∷ jobs
      → Moves cfg s
  unfolding IsMove
  lb-Moves i job jobs b e = elim (roomy.carried i) [
    | inr (x, k) ↦ hand-Moves i x b k
    | inl k ↦ moves (take_job i b k (pop-cons (s.lb_queues i) job jobs e)) tt
  ]

  input-Moves : (job : PacketJob) (jobs : List PacketJob) → s.input ≡ job ∷ jobs → Moves cfg s
  unfolding IsMove
  input-Moves job jobs e =
      let i = lb_of cfg job in
      elim (List-cases (s.lb_queues i).items) [
        | inr (x, xs, k) ↦ lb-Moves i x xs (lb_of-lt cfg job some_lb) k
        | inl k ↦
            let (q, f) = push-empty (s.lb_queues i) job k (roomy.lbs i) (routed.lbs_open i) in
            moves (read e f) tt
      ]

  -- A job in the queue or in the hand of a load balancer or of a worker.
  lbs-Moves : 0 < load queued cfg.num_load_balancers s.lb_queues → Moves cfg s
  lbs-Moves h =
      let (i, b, k) = load-positive queued cfg.num_load_balancers s.lb_queues h in
      let (x, xs, e) = some_of (s.lb_queues i).items k in lb-Moves i x xs b e

  hands-Moves : 0 < load length cfg.num_load_balancers s.carried → Moves cfg s
  hands-Moves h =
      let (i, b, k) = load-positive length cfg.num_load_balancers s.carried h in
      let (x, e) = held (s.carried i) (roomy.carried i) k in hand-Moves i x b e

  fps-Moves : 0 < load queued (num_workers cfg) s.fp_queues → Moves cfg s
  fps-Moves h =
      let (w, b, k) = load-positive queued (num_workers cfg) s.fp_queues h in
      let (x, xs, e) = some_of (s.fp_queues w).items k in fp-Moves w x xs b e

  decisions-Moves : 0 < load length (num_workers cfg) s.decided → Moves cfg s
  decisions-Moves h =
      let (w, b, k) = load-positive length (num_workers cfg) s.decided h in
      let (d, e) = held (s.decided w) (roomy.decided w) k in decision-Moves w d b e

  -- Where there is work there is a job, and so a thread to move one.
  work-Moves : 0 < work cfg s → Moves cfg s
  unfolding work
  work-Moves h =
      if_positive (length s.input) (λ k. let (x, xs, e) = some_of s.input k in input-Moves x xs e)
        (λ a. if_positive (load queued cfg.num_load_balancers s.lb_queues) lbs-Moves (λ b.
          if_positive (load length cfg.num_load_balancers s.carried) hands-Moves (λ c.
            if_positive (load queued (num_workers cfg) s.fp_queues) fps-Moves (λ d.
              if_positive (load length (num_workers cfg) s.decided) decisions-Moves (λ e.
                let (x, xs, f) = some_of s.output_queue.items (omega (arith, h, a, b, c, d, e)) in
                output-Moves x xs f)))))

-- What a run needs: threads, a started engine whose queues have room for one job each, and workers
-- and jobs that are fit.
pub record IsReady (cfg : Config) (s : Engine) : Type 0 where
  pub some_lb : 0 < cfg.num_load_balancers
  pub some_fp : 0 < cfg.fps_per_lb
  pub routed : IsRouted cfg s
  pub roomy : IsRoomy s
  pub fit : AreFit s

Reach-IsReady : (cfg : Config) {s0 s : Engine} → IsReady cfg s0 → Reach cfg s0 s → IsReady cfg s
Reach-IsReady cfg h r = record {
  some_lb = h.some_lb;
  some_fp = h.some_fp;
  routed = Reach-IsRouted cfg h.routed r;
  roomy = Reach-IsRoomy cfg h.routed h.roomy r;
  fit = Reach-AreFit cfg h.routed h.fit r;
}

ready-Moves : (cfg : Config) (s : Engine) → IsReady cfg s → 0 < work cfg s → Moves cfg s
ready-Moves cfg s h b = work-Moves cfg s h.some_lb h.some_fp h.routed h.roomy h.fit b

-- A run from a state to one without work, in steps that each take work away.
drains :
    (cfg : Config) (n : ℕ) (s s' : Engine)
    → IsReady cfg s
    → Reach cfg s s'
    → work cfg s' ≤ n
    → (s'' : Engine) × Reach cfg s s'' × (work cfg s'' ≡ 0)
drains cfg zero s s' h r m = (s', r, omega (arith, m))
drains cfg (suc n) s s' h r m = elim (Bool-cases (work cfg s' == 0)) [
  | inl e ↦ (s', r, ground (arith, e))
  | inr e ↦
      let (s'', t, l) = ready-Moves cfg s' (Reach-IsReady cfg h r) (ground (arith, e)) in
      drains cfg n s s'' h (step r t) (omega (arith, l, m))
]

-- An engine is started with at least one load balancer and one worker for each, its queues have
-- room for one job each, its workers have well-formed tables with room for one record, and the
-- payloads of its jobs lie within their bytes. Then in every state that it reaches some thread can
-- take a step that leaves less work, as long as there is work; and some run from that state leaves
-- none. Work is left while a job is still with the reader, in a queue or with a thread.
pub no_deadlock :
    (cfg : Config) (s0 s : Engine)
    → 0 < cfg.num_load_balancers
    → 0 < cfg.fps_per_lb
    → IsStarted s0
    → IsRoomy s0
    → AreFit s0
    → Reach cfg s0 s
    → ((work cfg s ≡ 0) ⊎ ((s' : Engine) × Step cfg s s' × (work cfg s' < work cfg s)))
      × ((s' : Engine) × Reach cfg s s' × (work cfg s' ≡ 0))
no_deadlock cfg s0 s n p h m f r =
    let ready0 : IsReady cfg s0 = record {
      some_lb = n;
      some_fp = p;
      routed = IsStarted-IsRouted cfg s0 h;
      roomy = m;
      fit = f;
    } in
    let ready = Reach-IsReady cfg ready0 r in
    (
      if_positive (work cfg s) (λ b. inr (ready-Moves cfg s ready b)) (λ e. inl e),
      drains cfg (work cfg s) s s ready start (omega arith),
    )
