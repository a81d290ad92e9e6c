-- ===== src/Pipeline/Order.antt =====
-- The order of the jobs of one worker on their way through the engine.
use deep_packet_analyzer.Base.{
  ℕ, ◌/◌, ◌<◌, ◌≡◌, inl, inr, ap, ap₂, subst, sym, ◌∙◌, false, List, [], ◌∷◌, ◌++◌, some, ◌==◌,
  arith, All, Bool-cases, append_assoc,
}
use deep_packet_analyzer.Connection.{PacketJob}
use deep_packet_analyzer.Queue.{Queue, push, pop_with_timeout}
use deep_packet_analyzer.Pipeline.{Config, Engine, set_at, lb_of, fp_of}
use deep_packet_analyzer.Pipeline.Stages.{set_at_here, set_at_other, push-items, pop-items}
use deep_packet_analyzer.Pipeline.Route.{
  worker_of, fp_of-lb_of, worker_of-lb_of, jobs_of, jobs_of-append, jobs_of-nil, jobs_of_mine,
  jobs_of_other, IsRouted,
}

-- The load balancer of worker `w`.
abbrev pub lb_at : Config → ℕ → ℕ
lb_at cfg w = w / cfg.fps_per_lb

-- The jobs of worker `w` that it has not popped, the next one first.
abbrev pub ahead : Config → ℕ → Engine → List PacketJob
ahead cfg w s =
    (s.fp_queues w).items
    ++ (jobs_of cfg w (s.carried (lb_at cfg w))
        ++ (jobs_of cfg w (s.lb_queues (lb_at cfg w)).items ++ jobs_of cfg w s.input))

module _ (cfg : Config) (w : ℕ) (room : 0 < cfg.fps_per_lb) where
  -- A job of worker `w` goes through its load balancer.
  pub lb_of-lb_at : (job : PacketJob) → worker_of cfg job ≡ w → lb_of cfg job ≡ lb_at cfg w
  lb_of-lb_at job e = sym (worker_of-lb_of cfg job room) ∙ ap (λ x. x / cfg.fps_per_lb) e

  elsewhere :
      (job : PacketJob) → (lb_at cfg w == lb_of cfg job) ≡ false → (worker_of cfg job == w) ≡ false
  elsewhere job e = ground (arith, e, lb_of-lb_at job)

  pub ahead-read :
      (s : Engine) (job : PacketJob) (jobs : List PacketJob) (q : Queue PacketJob)
      → IsRouted cfg s
      → s.input ≡ job ∷ jobs
      → push (s.lb_queues (lb_of cfg job)) job ≡ some q
      → jobs_of cfg w (set_at (lb_of cfg job) q s.lb_queues (lb_at cfg w)).items
          ++ jobs_of cfg w jobs
        ≡ jobs_of cfg w (s.lb_queues (lb_at cfg w)).items ++ jobs_of cfg w s.input
  ahead-read s job jobs q r e p =
      let i = lb_of cfg job in
      let o = lb_at cfg w in
      elim (Bool-cases (o == i)) [
        | inl b ↦
            let k : o ≡ i = ground (arith, b) in
            let a = (push-items (s.lb_queues i) q job p (r.lbs_open i)).0 in
            ap (λ (x : Queue PacketJob). jobs_of cfg w x.items ++ jobs_of cfg w jobs)
              (set_at_here i q s.lb_queues o b)
            ∙ ap (λ xs. jobs_of cfg w xs ++ jobs_of cfg w jobs) a
            ∙ ap (λ xs. xs ++ jobs_of cfg w jobs)
                (jobs_of-append cfg w (s.lb_queues i).items (job ∷ []))
            ∙ append_assoc (jobs_of cfg w (s.lb_queues i).items) (jobs_of cfg w (job ∷ []))
                (jobs_of cfg w jobs)
            ∙ ap₂ ◌++◌ (ap (λ x. jobs_of cfg w (s.lb_queues x).items) (sym k))
                (sym (jobs_of-append cfg w (job ∷ []) jobs) ∙ ap (jobs_of cfg w) (sym e))
        | inr b ↦
            ap₂ ◌++◌
              (ap (λ (x : Queue PacketJob). jobs_of cfg w x.items)
                (set_at_other i q s.lb_queues o b))
              (sym (ap (jobs_of cfg w) e ∙ jobs_of_other cfg w job jobs (elsewhere job b)))
      ]

  pub ahead-take :
      (s : Engine) (i : ℕ) (job : PacketJob) (q : Queue PacketJob) (rest : List PacketJob)
      → s.carried i ≡ []
      → pop_with_timeout (s.lb_queues i) ≡ (some job, q)
      → jobs_of cfg w (set_at i (job ∷ []) s.carried (lb_at cfg w))
          ++ (jobs_of cfg w (set_at i q s.lb_queues (lb_at cfg w)).items ++ rest)
        ≡ jobs_of cfg w (s.carried (lb_at cfg w))
          ++ (jobs_of cfg w (s.lb_queues (lb_at cfg w)).items ++ rest)
  ahead-take s i job q rest e p =
      let o = lb_at cfg w in
      elim (Bool-cases (o == i)) [
        | inl b ↦
            let k : i ≡ o = ground (arith, b) in
            let a = (pop-items (s.lb_queues i) q job p).0 in
            let left = ap (jobs_of cfg w) (set_at_here i (job ∷ []) s.carried o b) in
            let right =
              ap (λ (x : Queue PacketJob). jobs_of cfg w x.items)
                (set_at_here i q s.lb_queues o b) in
            ap₂ (λ xs ys. xs ++ (ys ++ rest)) left right
            ∙ sym (append_assoc (jobs_of cfg w (job ∷ [])) (jobs_of cfg w q.items) rest)
            ∙ ap (λ xs. xs ++ rest)
                (sym (jobs_of-append cfg w (job ∷ []) q.items) ∙ ap (jobs_of cfg w) (sym a))
            ∙ ap₂ (λ xs ys. xs ++ (jobs_of cfg w ys ++ rest))
                (sym (ap (jobs_of cfg w) (ap s.carried (sym k) ∙ e) ∙ jobs_of-nil cfg w))
                (ap (λ x. (s.lb_queues x).items) k)
        | inr b ↦
            ap₂ (λ xs (x : Queue PacketJob). jobs_of cfg w xs ++ (jobs_of cfg w x.items ++ rest))
              (set_at_other i (job ∷ []) s.carried o b) (set_at_other i q s.lb_queues o b)
      ]

  pub ahead-send :
      (s : Engine) (i : ℕ) (job : PacketJob) (q : Queue PacketJob) (rest : List PacketJob)
      → IsRouted cfg s
      → s.carried i ≡ job ∷ []
      → push (s.fp_queues (fp_of cfg i job)) job ≡ some q
      → (set_at (fp_of cfg i job) q s.fp_queues w).items
          ++ (jobs_of cfg w (set_at i [] s.carried (lb_at cfg w)) ++ rest)
        ≡ (s.fp_queues w).items ++ (jobs_of cfg w (s.carried (lb_at cfg w)) ++ rest)
  ahead-send s i job q rest r e p =
      let o = lb_at cfg w in
      let v = fp_of cfg i job in
      let k : lb_of cfg job ≡ i = (subst (All (λ x. lb_of cfg x ≡ i)) e (r.held i)).0 in
      let m : worker_of cfg job ≡ v = sym (fp_of-lb_of cfg job) ∙ ap (λ x. fp_of cfg x job) k in
      elim (Bool-cases (w == v)) [
        | inl b ↦
            let n : v ≡ w = ground (arith, b) in
            let c : o ≡ i = sym (lb_of-lb_at job (m ∙ n)) ∙ k in
            let a = (push-items (s.fp_queues v) q job p (r.fps_open v)).0 in
            let left =
              ap (λ (x : Queue PacketJob). x.items) (set_at_here v q s.fp_queues w b)
              ∙ a
              ∙ ap (λ x. (s.fp_queues x).items ++ job ∷ []) n in
            let mid =
              ap (jobs_of cfg w) (set_at_here i [] s.carried o (ground (arith, c)))
              ∙ jobs_of-nil cfg w in
            let mine =
              ap (λ x. jobs_of cfg w (s.carried x)) c
              ∙ ap (jobs_of cfg w) e
              ∙ jobs_of_mine cfg w job [] (m ∙ n)
              ∙ ap (◌∷◌ job) (jobs_of-nil cfg w) in
            ap₂ (λ xs ys. xs ++ (ys ++ rest)) left mid
            ∙ append_assoc (s.fp_queues w).items (job ∷ []) rest
            ∙ ap (λ ys. (s.fp_queues w).items ++ (ys ++ rest)) (sym mine)
        | inr b ↦
            let f : (worker_of cfg job == w) ≡ false = ground (arith, b, m) in
            ap₂ (λ (x : Queue PacketJob) ys. x.items ++ (ys ++ rest))
              (set_at_other v q s.fp_queues w b)
              (elim (Bool-cases (o == i)) [
                | inl c ↦
                    let d : o ≡ i = ground (arith, c) in
                    ap (jobs_of cfg w) (set_at_here i [] s.carried o c)
                    ∙ sym (
                        ap (λ x. jobs_of cfg w (s.carried x)) d
                        ∙ ap (jobs_of cfg w) e
                        ∙ jobs_of_other cfg w job [] f)
                | inr c ↦ ap (jobs_of cfg w) (set_at_other i [] s.carried o c)
              ])
      ]
