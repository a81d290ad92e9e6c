-- ===== src/Pipeline/Room.antt =====
-- Queues keep their capacity, and no thread of the engine holds more than one job.
use deep_packet_analyzer.Base.{ℕ, ◌<◌, ◌≡◌, ◌⊎◌, inl, inr, refl, List, [], ◌∷◌, some}
use deep_packet_analyzer.Connection.{PacketJob, PacketAction}
use deep_packet_analyzer.Queue.{Queue}
use deep_packet_analyzer.Pipeline.{
  Config, Engine, lb_of, fp_of, Step, read, take_job, send_job, process, idle, deliver, write,
  Reach, start, step,
}
use deep_packet_analyzer.Pipeline.Stages.{push-max_size, pop-max_size}
use deep_packet_analyzer.Pipeline.Route.{IsRouted, at_all, handle_output-queue}
use deep_packet_analyzer.Pipeline.Sequential.{Reach-IsRouted}

-- At most one element.
abbrev pub IsSingle {ℓ} : {A : Type ℓ} → List A → Type ℓ
IsSingle {A} xs = (xs ≡ []) ⊎ ((x : A) × (xs ≡ x ∷ []))

-- Every queue has room for one, and no thread holds more than one.
pub record IsRoomy (s : Engine) : Type 0 where
  pub lbs : (i : ℕ) → 0 < (s.lb_queues i).max_size
  pub fps : (w : ℕ) → 0 < (s.fp_queues w).max_size
  pub out : 0 < s.output_queue.max_size
  pub carried : (i : ℕ) → IsSingle (s.carried i)
  pub decided : (w : ℕ) → IsSingle (s.decided w)

-- The capacity of a queue stays.
abbrev HasRoom : ℕ → Queue PacketJob → Type 0
HasRoom i q = 0 < q.max_size

abbrev HoldsJob : ℕ → List PacketJob → Type 0
HoldsJob i jobs = IsSingle jobs

abbrev HoldsDecision : ℕ → List (PacketJob × PacketAction) → Type 0
HoldsDecision w ds = IsSingle ds

Step-IsRoomy :
    (cfg : Config) {s s' : Engine} → Step cfg s s' → IsRouted cfg s → IsRoomy s → IsRoomy s'
Step-IsRoomy cfg (read {s} {job} {jobs} {q} e p) h r =
    let i = lb_of cfg job in
    record {
      lbs =
          at_all HasRoom i q s.lb_queues (rw (push-max_size (s.lb_queues i) q job p) (r.lbs i))
            r.lbs;
      fps = r.fps;
      out = r.out;
      carried = r.carried;
      decided = r.decided;
    }
Step-IsRoomy cfg (take_job {s} i {job} {q} b e p) h r = record {
  lbs =
      at_all HasRoom i q s.lb_queues (rw (pop-max_size (s.lb_queues i) q (some job) p) (r.lbs i))
        r.lbs;
  fps = r.fps;
  out = r.out;
  carried = at_all HoldsJob i (job ∷ []) s.carried (inr (job, refl)) r.carried;
  decided = r.decided;
}
Step-IsRoomy cfg (send_job {s} i {job} {q} b e p) h r =
    let w = fp_of cfg i job in
    record {
      lbs = r.lbs;
      fps =
          at_all HasRoom w q s.fp_queues (rw (push-max_size (s.fp_queues w) q job p) (r.fps w))
            r.fps;
      out = r.out;
      carried = at_all HoldsJob i [] s.carried (inl refl) r.carried;
      decided = r.decided;
    }
Step-IsRoomy cfg (process {s} w {job} {q} created pos now {action} {fp} b e p x) h r = record {
  lbs = r.lbs;
  fps =
      at_all HasRoom w q s.fp_queues (rw (pop-max_size (s.fp_queues w) q (some job) p) (r.fps w))
        r.fps;
  out = r.out;
  carried = r.carried;
  decided =
      at_all HoldsDecision w ((job, action) ∷ []) s.decided (inr ((job, action), refl)) r.decided;
}
Step-IsRoomy cfg (idle {s} w now b e p) h r = record {
  lbs = r.lbs;
  fps = r.fps;
  out = r.out;
  carried = r.carried;
  decided = r.decided;
}
Step-IsRoomy cfg (deliver {s} w {job} {action} {stats} {q} b e p) h r = record {
  lbs = r.lbs;
  fps = r.fps;
  out = rw (handle_output-queue s.stats stats s.output_queue q job action p h.out_open).2 r.out;
  carried = r.carried;
  decided = at_all HoldsDecision w [] s.decided (inl refl) r.decided;
}
Step-IsRoomy cfg (write {s} {job} {q} p) h r = record {
  lbs = r.lbs;
  fps = r.fps;
  out = rw (pop-max_size s.output_queue q (some job) p) r.out;
  carried = r.carried;
  decided = r.decided;
}

pub Reach-IsRoomy :
    (cfg : Config) {s0 s : Engine} → IsRouted cfg s0 → IsRoomy s0 → Reach cfg s0 s → IsRoomy s
Reach-IsRoomy cfg k h start = h
Reach-IsRoomy cfg k h (step r t) =
    Step-IsRoomy cfg t (Reach-IsRouted cfg k r) (Reach-IsRoomy cfg k h r)
