-- ===== src/Pipeline/Sequential.antt =====
-- Each worker of the engine does what it would do alone on its packets in the order of the capture.
use deep_packet_analyzer.Base.{
  ℕ, ◌<◌, ◌≡◌, inl, inr, refl, ap, ap₂, subst, sym, ◌∙◌, true, false, List, [], ◌∷◌, ◌++◌, some,
  ◌==◌, if◌then◌else◌, arith, All, Bool-cases, append_assoc, append-nil, ok,
}
use deep_packet_analyzer.Connection.{PacketJob, PacketAction}
use deep_packet_analyzer.Queue.{Queue, pop_with_timeout}
use deep_packet_analyzer.FastPath.Inspect.{FastPath}
use deep_packet_analyzer.FastPath.{is_drop, run_packet, run_idle}
use deep_packet_analyzer.Engine.{DpiStats, handle_output}
use deep_packet_analyzer.Pipeline.{
  Config, Engine, set_at, Step, read, take_job, send_job, process, idle, deliver, write, Reach,
  start, step,
}
use deep_packet_analyzer.Pipeline.Stages.{set_at_here, set_at_other, pop-items}
use deep_packet_analyzer.Pipeline.Route.{
  worker_of, jobs_of, jobs_of-append, jobs_of-nil, jobs_of_mine, jobs_of_other, IsRouted,
  Step-IsRouted, handle_output-queue,
}
use deep_packet_analyzer.Pipeline.Order.{lb_at, ahead, ahead-read, ahead-take, ahead-send}

-- The job, unless it is dropped.
abbrev pub passed_on : PacketJob → PacketAction → List PacketJob
passed_on job action = if is_drop action then [] else job ∷ []

abbrev pub undelivered : List (PacketJob × PacketAction) → List PacketJob
undelivered [] = []
undelivered ((job, action) ∷ ds) = passed_on job action ++ undelivered ds

-- A worker alone: from one state it handles the first jobs in order, passes on the second ones,
-- and comes to the other state. Between two jobs it may remove stale connections.
pub data Alone (cfg : Config) (fp0 : FastPath)
    : List PacketJob → List PacketJob → FastPath → Type 0 where
  fresh : Alone cfg fp0 [] [] fp0
  handle :
      {jobs passed : List PacketJob} {fp fp' : FastPath} (job : PacketJob) (action : PacketAction)
      (created pos now : ℕ)
      → Alone cfg fp0 jobs passed fp
      → run_packet cfg.rules fp created pos now job ≡ ok (action, fp')
      → Alone cfg fp0 (jobs ++ job ∷ []) (passed ++ passed_on job action) fp'
  clean :
      {jobs passed : List PacketJob} {fp : FastPath} (now : ℕ)
      → Alone cfg fp0 jobs passed fp
      → Alone cfg fp0 jobs passed (run_idle fp now)

-- What has become of the jobs of worker `w` since the state `s0`.
pub record IsSequential (cfg : Config) (s0 : Engine) (w : ℕ) (s : Engine) : Type 0 where
  pub handled : List PacketJob
  pub passed : List PacketJob
  pub alone : Alone cfg (s0.workers w) handled passed (s.workers w)
  pub in_order : handled ++ ahead cfg w s ≡ ahead cfg w s0
  pub sent :
      jobs_of cfg w s.written ++ (jobs_of cfg w s.output_queue.items ++ undelivered (s.decided w))
      ≡ passed

append_last : (xs ys zs : List PacketJob) → xs ++ (ys ++ (zs ++ [])) ≡ (xs ++ (ys ++ [])) ++ zs
append_last xs ys zs =
    ap₂ (λ u v. xs ++ (u ++ v)) (sym (append-nil ys)) (append-nil zs)
    ∙ sym (append_assoc xs (ys ++ []) zs)

module _ (cfg : Config) (w : ℕ) (room : 0 < cfg.fps_per_lb) (s0 : Engine) where
  passed_on_mine :
      (job : PacketJob) (action : PacketAction)
      → worker_of cfg job ≡ w
      → jobs_of cfg w (passed_on job action) ≡ passed_on job action
  passed_on_mine job action e = elim (Bool-cases (is_drop action)) [
    | inl b ↦ rw b (jobs_of-nil cfg w)
    | inr b ↦ rw b (jobs_of_mine cfg w job [] e ∙ ap (◌∷◌ job) (jobs_of-nil cfg w))
  ]

  passed_on_other :
      (job : PacketJob) (action : PacketAction)
      → (worker_of cfg job == w) ≡ false
      → jobs_of cfg w (passed_on job action) ≡ []
  passed_on_other job action e = elim (Bool-cases (is_drop action)) [
    | inl b ↦ rw b (jobs_of-nil cfg w)
    | inr b ↦ rw b (jobs_of_other cfg w job [] e ∙ jobs_of-nil cfg w)
  ]

  -- The steps of the reader and of the load balancers.
  moved :
      (s s' : Engine)
      → ahead cfg w s' ≡ ahead cfg w s
      → s'.workers w ≡ s.workers w
      → s'.written ≡ s.written
      → s'.output_queue ≡ s.output_queue
      → s'.decided w ≡ s.decided w
      → IsSequential cfg s0 w s
      → IsSequential cfg s0 w s'
  moved s s' e f g h k r = record {
    handled = r.handled;
    passed = r.passed;
    alone = subst (Alone cfg (s0.workers w) r.handled r.passed) (sym f) r.alone;
    in_order = ap (λ x. r.handled ++ x) e ∙ r.in_order;
    sent =
        ap₂ (λ x y. jobs_of cfg w x ++ y) g
          (ap₂ (λ (x : Queue PacketJob) y. jobs_of cfg w x.items ++ undelivered y) h k)
        ∙ r.sent;
  }

  handled_here :
      (s : Engine) (v : ℕ) (here : (w == v) ≡ true) (job : PacketJob) (q : Queue PacketJob)
      (created pos now : ℕ) (action : PacketAction) (fp : FastPath)
      → s.decided w ≡ []
      → pop_with_timeout (s.fp_queues w) ≡ (some job, q)
      → run_packet cfg.rules (s.workers w) created pos now job ≡ ok (action, fp)
      → IsSequential cfg s0 w s
      → IsSequential cfg s0 w (record s {
        fp_queues = set_at v q s.fp_queues;
        workers = set_at v fp s.workers;
        decided = set_at v ((job, action) ∷ []) s.decided;
      })
  handled_here s v here job q created pos now action fp e p x r =
      let rest =
        jobs_of cfg w (s.carried (lb_at cfg w))
        ++ (jobs_of cfg w (s.lb_queues (lb_at cfg w)).items ++ jobs_of cfg w s.input) in
      let out = jobs_of cfg w s.written in
      let queued = jobs_of cfg w s.output_queue.items in
      record {
        handled = r.handled ++ job ∷ [];
        passed = r.passed ++ passed_on job action;
        alone =
            subst
              (Alone cfg (s0.workers w) (r.handled ++ job ∷ []) (r.passed ++ passed_on job action))
              (sym (set_at_here v fp s.workers w here))
              (handle job action created pos now r.alone x);
        in_order =
            ap (λ (y : Queue PacketJob). (r.handled ++ job ∷ []) ++ (y.items ++ rest))
              (set_at_here v q s.fp_queues w here)
            ∙ append_assoc r.handled (job ∷ []) (q.items ++ rest)
            ∙ ap (λ y. r.handled ++ (y ++ rest)) (sym (pop-items (s.fp_queues w) q job p).0)
            ∙ r.in_order;
        sent =
            ap (λ y. out ++ (queued ++ undelivered y))
              (set_at_here v ((job, action) ∷ []) s.decided w here)
            ∙ append_last out queued (passed_on job action)
            ∙ ap (λ y. y ++ passed_on job action)
                (ap (λ y. out ++ (queued ++ undelivered y)) (sym e) ∙ r.sent);
      }

  idled_here :
      (s : Engine) (v : ℕ) (here : (w == v) ≡ true) (now : ℕ)
      → IsSequential cfg s0 w s
      → IsSequential cfg s0 w
          (record s { workers = set_at v (run_idle (s.workers v) now) s.workers })
  idled_here s v here now r =
      let n : v ≡ w = ground (arith, here) in
      record {
        handled = r.handled;
        passed = r.passed;
        alone =
            subst (Alone cfg (s0.workers w) r.handled r.passed)
              (sym (
                set_at_here v (run_idle (s.workers v) now) s.workers w here
                ∙ ap (λ x. run_idle (s.workers x) now) n))
              (clean now r.alone);
        in_order = r.in_order;
        sent = r.sent;
      }

  -- A worker hands its decision on.
  delivered :
      (s : Engine) (v : ℕ) (job : PacketJob) (action : PacketAction) (stats : DpiStats)
      (q : Queue PacketJob)
      → IsRouted cfg s
      → s.decided v ≡ (job, action) ∷ []
      → handle_output s.stats s.output_queue job action ≡ some (stats, q)
      → IsSequential cfg s0 w s
      → IsSequential cfg s0 w
          (record s { decided = set_at v [] s.decided; stats = stats; output_queue = q })
  delivered s v job action stats q r e p k =
      let out = jobs_of cfg w s.written in
      let queued = jobs_of cfg w s.output_queue.items in
      let a = (handle_output-queue s.stats stats s.output_queue q job action p r.out_open).0 in
      let m : worker_of cfg job ≡ v =
        (subst (λ ds. All (λ (d : PacketJob × PacketAction). worker_of cfg d.0 ≡ v) ds) e
          (r.settled v)).0 in
      let grown =
        ap (jobs_of cfg w) a ∙ jobs_of-append cfg w s.output_queue.items (passed_on job action) in
      record {
        handled = k.handled;
        passed = k.passed;
        alone = k.alone;
        in_order = k.in_order;
        sent = elim (Bool-cases (w == v)) [
          | inl b ↦
              let n : v ≡ w = ground (arith, b) in
              ap₂ (λ x y. out ++ (x ++ undelivered y))
                (grown ∙ ap (λ x. queued ++ x) (passed_on_mine job action (m ∙ n)))
                (set_at_here v [] s.decided w b)
              ∙ ap (λ x. out ++ x) (append_assoc queued (passed_on job action) [])
              ∙ ap (λ y. out ++ (queued ++ undelivered y)) (sym (ap s.decided (sym n) ∙ e))
              ∙ k.sent
          | inr b ↦
              ap₂ (λ x y. out ++ (x ++ undelivered y))
                (grown
                  ∙ ap (λ x. queued ++ x) (passed_on_other job action (ground (arith, b, m)))
                  ∙ append-nil queued)
                (set_at_other v [] s.decided w b)
              ∙ k.sent
        ];
      }

  -- The output thread writes a job.
  written_next :
      (s : Engine) (job : PacketJob) (q : Queue PacketJob)
      → pop_with_timeout s.output_queue ≡ (some job, q)
      → IsSequential cfg s0 w s
      → IsSequential cfg s0 w (record s { output_queue = q; written = s.written ++ job ∷ [] })
  written_next s job q p k =
      let last = undelivered (s.decided w) in
      record {
        handled = k.handled;
        passed = k.passed;
        alone = k.alone;
        in_order = k.in_order;
        sent =
            ap (λ x. x ++ (jobs_of cfg w q.items ++ last))
              (jobs_of-append cfg w s.written (job ∷ []))
            ∙ append_assoc (jobs_of cfg w s.written) (jobs_of cfg w (job ∷ []))
                (jobs_of cfg w q.items ++ last)
            ∙ ap (λ x. jobs_of cfg w s.written ++ x)
                (sym (append_assoc (jobs_of cfg w (job ∷ [])) (jobs_of cfg w q.items) last))
            ∙ ap (λ x. jobs_of cfg w s.written ++ (x ++ last))
                (sym (jobs_of-append cfg w (job ∷ []) q.items)
                  ∙ ap (jobs_of cfg w) (sym (pop-items s.output_queue q job p).0))
            ∙ k.sent;
      }

  Step-IsSequential :
      {s s' : Engine}
      → Step cfg s s'
      → IsRouted cfg s
      → IsSequential cfg s0 w s
      → IsSequential cfg s0 w s'
  Step-IsSequential (read {s} {job} {jobs} {q} e p) r k =
      moved s _
        (ap (λ x. (s.fp_queues w).items ++ (jobs_of cfg w (s.carried (lb_at cfg w)) ++ x))
          (ahead-read cfg w room s job jobs q r e p))
        refl refl refl refl k
  Step-IsSequential (take_job {s} i {job} {q} b e p) r k =
      moved s _
        (ap (λ x. (s.fp_queues w).items ++ x)
          (ahead-take cfg w room s i job q (jobs_of cfg w s.input) e p))
        refl refl refl refl k
  Step-IsSequential (send_job {s} i {job} {q} b e p) r k =
      moved s _
        (ahead-send cfg w room s i job q
          (jobs_of cfg w (s.lb_queues (lb_at cfg w)).items ++ jobs_of cfg w s.input) r e p)
        refl refl refl refl k
  Step-IsSequential (process {s} v {job} {q} created pos now {action} {fp} b e p x) r k =
      elim (Bool-cases (w == v)) [
        | inl b ↦
            let n : v ≡ w = ground (arith, b) in
            handled_here s v b job q created pos now action fp (ap s.decided (sym n) ∙ e)
              (ap (λ y. pop_with_timeout (s.fp_queues y)) (sym n) ∙ p)
              (ap (λ y. run_packet cfg.rules (s.workers y) created pos now job) (sym n) ∙ x) k
        | inr b ↦
            moved s _
              (ap
                (λ (y : Queue PacketJob).
                  y.items
                  ++ (jobs_of cfg w (s.carried (lb_at cfg w))
                      ++ (jobs_of cfg w (s.lb_queues (lb_at cfg w)).items
                          ++ jobs_of cfg w s.input)))
                (set_at_other v q s.fp_queues w b))
              (set_at_other v fp s.workers w b) refl refl
              (set_at_other v ((job, action) ∷ []) s.decided w b) k
      ]
  Step-IsSequential (idle {s} v now b e p) r k = elim (Bool-cases (w == v)) [
    | inl b ↦ idled_here s v b now k
    | inr b ↦
        moved s _ refl (set_at_other v (run_idle (s.workers v) now) s.workers w b) refl refl refl k
  ]
  Step-IsSequential (deliver {s} v {job} {action} {stats} {q} b e p) r k =
      delivered s v job action stats q r e p k
  Step-IsSequential (write {s} {job} {q} p) r k = written_next s job q p k

-- No job on its way.
pub record IsIdle (s : Engine) : Type 0 where
  pub lbs : (i : ℕ) → (s.lb_queues i).items ≡ []
  pub carried : (i : ℕ) → s.carried i ≡ []
  pub fps : (w : ℕ) → (s.fp_queues w).items ≡ []
  pub decided : (w : ℕ) → s.decided w ≡ []
  pub output : s.output_queue.items ≡ []

-- The engine as it is started: all queues empty and open, nothing written.
pub record IsStarted (s : Engine) : Type 0 where
  pub idle : IsIdle s
  pub lbs_open : (i : ℕ) → (s.lb_queues i).is_shutdown ≡ false
  pub fps_open : (w : ℕ) → (s.fp_queues w).is_shutdown ≡ false
  pub out_open : s.output_queue.is_shutdown ≡ false
  pub none_written : s.written ≡ []

pub IsStarted-IsRouted : (cfg : Config) (s : Engine) → IsStarted s → IsRouted cfg s
IsStarted-IsRouted cfg s h = record {
  lbs_open = h.lbs_open;
  fps_open = h.fps_open;
  out_open = h.out_open;
  queued = λ i. rw (h.idle.lbs i) tt;
  held = λ i. rw (h.idle.carried i) tt;
  waiting = λ w. rw (h.idle.fps w) tt;
  settled = λ w. rw (h.idle.decided w) tt;
}

pub Reach-IsRouted :
    (cfg : Config) {s0 s : Engine} → IsRouted cfg s0 → Reach cfg s0 s → IsRouted cfg s
Reach-IsRouted cfg h start = h
Reach-IsRouted cfg h (step r t) = Step-IsRouted cfg t (Reach-IsRouted cfg h r)

ahead_idle : (cfg : Config) (w : ℕ) (s : Engine) → IsIdle s → ahead cfg w s ≡ jobs_of cfg w s.input
ahead_idle cfg w s h =
    ap₂
      (λ (x : List PacketJob) y.
        x
        ++ (jobs_of cfg w y
            ++ (jobs_of cfg w (s.lb_queues (lb_at cfg w)).items ++ jobs_of cfg w s.input)))
      (h.fps w) (h.carried (lb_at cfg w))
    ∙ ap₂ (λ x y. x ++ (jobs_of cfg w y ++ jobs_of cfg w s.input)) (jobs_of-nil cfg w)
        (h.lbs (lb_at cfg w))
    ∙ ap (λ x. x ++ jobs_of cfg w s.input) (jobs_of-nil cfg w)

started-IsSequential : (cfg : Config) (w : ℕ) (s : Engine) → IsStarted s → IsSequential cfg s w s
started-IsSequential cfg w s h = record {
  handled = [];
  passed = [];
  alone = fresh;
  in_order = refl;
  sent =
      ap₂ (λ x y. jobs_of cfg w x ++ (jobs_of cfg w y ++ undelivered (s.decided w))) h.none_written
        h.idle.output
      ∙ ap₂ (λ x y. x ++ (x ++ undelivered y)) (jobs_of-nil cfg w) (h.idle.decided w);
}

-- In every state that the started engine reaches, whatever the order of the steps of its threads
-- and with one worker at least for a load balancer: each worker has handled the first of its
-- packets in the order of the capture, and is in the state to which it comes alone; its other
-- packets are ahead of it in that order, in its queue, in its load balancer's or with the reader;
-- and those that it passed on are written, or on the way to the output, in that order.
pub Reach-IsSequential :
    (cfg : Config) (s0 s : Engine) (w : ℕ)
    → 0 < cfg.fps_per_lb
    → IsStarted s0
    → Reach cfg s0 s
    → IsSequential cfg s0 w s
Reach-IsSequential cfg s0 _ w room h start = started-IsSequential cfg w s0 h
Reach-IsSequential cfg s0 _ w room h (step r t) =
    Step-IsSequential cfg w room s0 t (Reach-IsRouted cfg (IsStarted-IsRouted cfg s0 h) r)
      (Reach-IsSequential cfg s0 _ w room h r)

-- Once nothing is on its way and the reader has pushed everything, each worker has handled exactly
-- its packets of the capture, in that order, as it does alone, and of its packets exactly those
-- that it passed on are written, in that order.
pub drained-Alone :
    (cfg : Config) (s0 s : Engine) (w : ℕ)
    → 0 < cfg.fps_per_lb
    → IsStarted s0
    → Reach cfg s0 s
    → s.input ≡ []
    → IsIdle s
    → Alone cfg (s0.workers w) (jobs_of cfg w s0.input) (jobs_of cfg w s.written) (s.workers w)
drained-Alone cfg s0 s w room h r e d =
    let k = Reach-IsSequential cfg s0 s w room h r in
    let all : k.handled ≡ jobs_of cfg w s0.input =
      sym (append-nil k.handled)
      ∙ ap (λ x. k.handled ++ x)
          (sym (ahead_idle cfg w s d ∙ ap (jobs_of cfg w) e ∙ jobs_of-nil cfg w))
      ∙ k.in_order
      ∙ ahead_idle cfg w s0 h.idle in
    let out : k.passed ≡ jobs_of cfg w s.written =
      sym k.sent
      ∙ ap₂ (λ x y. jobs_of cfg w s.written ++ (jobs_of cfg w x ++ undelivered y)) d.output
          (d.decided w)
      ∙ ap (λ x. jobs_of cfg w s.written ++ (x ++ [])) (jobs_of-nil cfg w)
      ∙ append-nil (jobs_of cfg w s.written) in
    subst (λ x. Alone cfg (s0.workers w) x (jobs_of cfg w s.written) (s.workers w)) all
      (subst (λ y. Alone cfg (s0.workers w) k.handled y (s.workers w)) out k.alone)
