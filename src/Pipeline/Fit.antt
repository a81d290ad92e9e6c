-- ===== src/Pipeline/Fit.antt =====
-- The workers of the engine keep well-formed tables, and the jobs on their way keep their payload
-- within their bytes: so a worker can always decide the job that is next in its queue.
use deep_packet_analyzer.Base.{ℕ, subst, List, [], ◌∷◌, All}
use deep_packet_analyzer.Connection.{PacketJob, PacketAction}
use deep_packet_analyzer.Queue.{Queue}
use deep_packet_analyzer.FastPath.{run_idle}
use deep_packet_analyzer.FastPath.Inspect.{FastPath}
use deep_packet_analyzer.FastPath.Safety.{IsJob}
use deep_packet_analyzer.FastPath.Kept.{Always}
use deep_packet_analyzer.FastPath.Fit.{IsFit, run_packet-IsFit, run_idle-IsFit}
use deep_packet_analyzer.Pipeline.{
  Config, Engine, lb_of, fp_of, Step, read, take_job, send_job, process, idle, deliver, write,
  Reach, start, step,
}
use deep_packet_analyzer.Pipeline.Route.{IsRouted, at_all, push-All, pop-All}
use deep_packet_analyzer.Pipeline.Sequential.{Reach-IsRouted}

pub record AreFit (s : Engine) : Type 0 where
  pub workers : (w : ℕ) → IsFit (s.workers w)
  pub input : All IsJob s.input
  pub lbs : (i : ℕ) → All IsJob (s.lb_queues i).items
  pub carried : (i : ℕ) → All IsJob (s.carried i)
  pub fps : (w : ℕ) → All IsJob (s.fp_queues w).items

abbrev FitAt : ℕ → FastPath → Type 0
FitAt w fp = IsFit fp

abbrev QueueOf : ℕ → Queue PacketJob → Type 0
QueueOf i q = All IsJob q.items

abbrev JobsOf : ℕ → List PacketJob → Type 0
JobsOf i jobs = All IsJob jobs

Step-AreFit : (cfg : Config) {s s' : Engine} → Step cfg s s' → IsRouted cfg s → AreFit s → AreFit s'
Step-AreFit cfg (read {s} {job} {jobs} {q} e p) r h =
    let i = lb_of cfg job in
    let (j, js) = subst (All IsJob) e h.input in
    record {
      workers = h.workers;
      input = js;
      lbs =
          at_all QueueOf i q s.lb_queues
            (push-All IsJob (s.lb_queues i) q job p (r.lbs_open i) (h.lbs i) j) h.lbs;
      carried = h.carried;
      fps = h.fps;
    }
Step-AreFit cfg (take_job {s} i {job} {q} b e p) r h =
    let (j, js) = pop-All IsJob (s.lb_queues i) q job p (h.lbs i) in
    record {
      workers = h.workers;
      input = h.input;
      lbs = at_all QueueOf i q s.lb_queues js h.lbs;
      carried = at_all JobsOf i (job ∷ []) s.carried (j, tt) h.carried;
      fps = h.fps;
    }
Step-AreFit cfg (send_job {s} i {job} {q} b e p) r h =
    let w = fp_of cfg i job in
    let j = (subst (All IsJob) e (h.carried i)).0 in
    record {
      workers = h.workers;
      input = h.input;
      lbs = h.lbs;
      carried = at_all JobsOf i [] s.carried tt h.carried;
      fps =
          at_all QueueOf w q s.fp_queues
            (push-All IsJob (s.fp_queues w) q job p (r.fps_open w) (h.fps w) j) h.fps;
    }
Step-AreFit cfg (process {s} w {job} {q} created pos now {action} {fp} b e p x) r h = record {
  workers =
      at_all FitAt w fp s.workers
        (subst (λ m. Always m (λ (out : PacketAction × FastPath). IsFit out.1)) x
          (run_packet-IsFit cfg.rules (s.workers w) created pos now job (h.workers w)))
        h.workers;
  input = h.input;
  lbs = h.lbs;
  carried = h.carried;
  fps = at_all QueueOf w q s.fp_queues (pop-All IsJob (s.fp_queues w) q job p (h.fps w)).1 h.fps;
}
Step-AreFit cfg (idle {s} w now b e p) r h = record {
  workers =
      at_all FitAt w (run_idle (s.workers w) now) s.workers
        (run_idle-IsFit (s.workers w) now (h.workers w)) h.workers;
  input = h.input;
  lbs = h.lbs;
  carried = h.carried;
  fps = h.fps;
}
Step-AreFit cfg (deliver {s} w b e p) r h = record {
  workers = h.workers;
  input = h.input;
  lbs = h.lbs;
  carried = h.carried;
  fps = h.fps;
}
Step-AreFit cfg (write {s} p) r h = record {
  workers = h.workers;
  input = h.input;
  lbs = h.lbs;
  carried = h.carried;
  fps = h.fps;
}

pub Reach-AreFit :
    (cfg : Config) {s0 s : Engine} → IsRouted cfg s0 → AreFit s0 → Reach cfg s0 s → AreFit s
Reach-AreFit cfg k h start = h
Reach-AreFit cfg k h (step r t) =
    Step-AreFit cfg t (Reach-IsRouted cfg k r) (Reach-AreFit cfg k h r)
