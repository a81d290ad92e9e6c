-- ===== src/Balance.antt =====
-- The choice of a worker: `selectFP`, `getLBForPacket` and the slices of `LBManager` of
-- src/load_balancer.cpp, and of include/load_balancer.h. The counts are taken to be positive: with
-- none the source divides by zero.
pub mod Spread
use deep_packet_analyzer.Base.{
  ℕ, zero, suc, ◌+◌, ◌*◌, ◌%◌, List, [], ◌∷◌, ◌++◌, get_elem?, none, some, Result, ok, err, ◌>>=◌,
  out_of_bounds,
}
use deep_packet_analyzer.Tuple.{FiveTuple, StdHash, hash}

pub record LoadBalancer {ℓ} (Q : Type ℓ) : Type ℓ where
  pub lb_id : ℕ
  pub fp_start_id : ℕ
  pub num_fps : ℕ
  pub fp_queues : List Q

-- `v[i]` on a vector.
unfoldable pub item_at {ℓ} : {Q : Type ℓ} → List Q → ℕ → Result Q
item_at qs i = elim (get_elem? qs i) [ none ↦ err out_of_bounds | some q ↦ ok q ]

-- The inner loop of the constructor: `count` queues from `i` on; an index behind the end is
-- undefined in the source.
unfoldable pub fp_slice {ℓ} : {Q : Type ℓ} → List Q → ℕ → ℕ → Result (List Q)
fp_slice fp_queues i zero = ok []
fp_slice fp_queues i (suc count) = do
  q ← item_at fp_queues i
  qs ← fp_slice fp_queues (suc i) count
  ok (q ∷ qs)

-- The outer loop: the load balancers from `lb_id` on.
unfoldable pub balancers_from {ℓ} :
    {Q : Type ℓ} → ℕ → List Q → ℕ → ℕ → Result (List (LoadBalancer Q))
balancers_from fps_per_lb fp_queues lb_id zero = ok []
balancers_from fps_per_lb fp_queues lb_id (suc count) = do
  qs ← fp_slice fp_queues (lb_id * fps_per_lb) fps_per_lb
  lbs ← balancers_from fps_per_lb fp_queues (suc lb_id) count
  ok (
      record {
        lb_id = lb_id;
        fp_start_id = lb_id * fps_per_lb;
        num_fps = fps_per_lb;
        fp_queues = qs;
      }
      ∷ lbs)

unfoldable pub make_balancers {ℓ} : {Q : Type ℓ} → ℕ → ℕ → List Q → Result (List (LoadBalancer Q))
unfolding balancers_from
make_balancers num_lbs fps_per_lb fp_queues = balancers_from fps_per_lb fp_queues 0 num_lbs

unfoldable pub select_fp : StdHash → ℕ → FiveTuple → ℕ
select_fp std num_fps t = hash std t % num_fps

unfoldable pub lb_index : StdHash → ℕ → FiveTuple → ℕ
lb_index std num_lbs t = hash std t % num_lbs

-- The worker of a packet, counted over all load balancers: the queue that `run` of the packet's
-- load balancer pushes to.
unfoldable pub worker : StdHash → ℕ → ℕ → FiveTuple → ℕ
worker std num_lbs fps_per_lb t = lb_index std num_lbs t * fps_per_lb + select_fp std fps_per_lb t

-- The queue that a packet ends up in.
unfoldable pub dispatch {ℓ} :
    {Q : Type ℓ} → StdHash → List (LoadBalancer Q) → ℕ → FiveTuple → Result Q
dispatch std lbs num_lbs t = do
  lb ← item_at lbs (lb_index std num_lbs t)
  item_at lb.fp_queues (select_fp std lb.num_fps t)
