-- ===== src/Balance/Spread.antt =====
-- Where packets go: to the worker of that number, and to one worker for a flow.
use deep_packet_analyzer.Base.{
  ℕ, zero, suc, ◌+◌, ◌*◌, ◌%◌, ◌≤◌, ◌<◌, ◌≡◌, refl, sym, subst, ap, ◌∙◌, List, [], ◌∷◌,
  get_elem?-lt, length, arith, ok, ◌>>=◌,
}
use native.Mathlib.Nat.{add-mul, suc-mul, mod-lt}
use deep_packet_analyzer.Tuple.{FiveTuple, StdHash, hash, canonical_tuple}
use deep_packet_analyzer.Tuple.Hash.{hash-canonical}
use deep_packet_analyzer.Balance.{
  LoadBalancer, item_at, fp_slice, balancers_from, make_balancers, select_fp, lb_index, worker,
  dispatch,
}

item_at-lt {ℓ} :
    {Q : Type ℓ} (qs : List Q) (i : ℕ) → i < length qs → (q : Q) × (item_at qs i ≡ ok q)
unfolding item_at
item_at-lt qs i h = let (q, e) = get_elem?-lt qs i h in (q, rw (e, item_at) refl)

-- The slice from `i` on holds the queues of its places.
IsSlice {ℓ} : {Q : Type ℓ} → List Q → ℕ → ℕ → List Q → Type ℓ
IsSlice qs i count s = (j : ℕ) → j < count → item_at s j ≡ item_at qs (i + j)

cons-IsSlice {ℓ} :
    {Q : Type ℓ} (qs : List Q) (i count : ℕ) (q : Q) (s : List Q)
    → item_at qs i ≡ ok q
    → IsSlice qs (suc i) count s
    → IsSlice qs i (suc count) (q ∷ s)
unfolding IsSlice item_at
cons-IsSlice qs i count q s e h zero k = sym e ∙ ap (item_at qs) (omega arith)
cons-IsSlice qs i count q s e h (suc j) k = h j (omega arith) ∙ ap (item_at qs) (omega arith)

fp_slice-IsSlice {ℓ} :
    {Q : Type ℓ} (qs : List Q) (i count : ℕ)
    → i + count ≤ length qs
    → (s : List Q) × (fp_slice qs i count ≡ ok s) × IsSlice qs i count s
unfolding fp_slice
fp_slice-IsSlice qs i zero h = ([], refl, unfold IsSlice in λ j k. absurd (omega arith))
fp_slice-IsSlice qs i (suc count) h =
    let (q, e) = item_at-lt qs i (omega arith) in
    let (s, f, g) = fp_slice-IsSlice qs (suc i) count (omega arith) in
    (q ∷ s, rw (e, f) refl, cons-IsSlice qs i count q s e g)

-- Load balancer number `i` of the list serves the queues of its slice.
IsServing {ℓ} : {Q : Type ℓ} → ℕ → List Q → List (LoadBalancer Q) → ℕ → ℕ → Type ℓ
IsServing {Q} fps qs lbs i start =
    (lb : LoadBalancer Q) × (item_at lbs i ≡ ok lb)
    × (lb.num_fps ≡ fps)
    × IsSlice qs start fps lb.fp_queues

IsServing-cons {ℓ} :
    {Q : Type ℓ} (fps : ℕ) (qs : List Q) (lb_id count : ℕ) (lb : LoadBalancer Q)
    (lbs : List (LoadBalancer Q))
    → (lb.num_fps ≡ fps) × IsSlice qs (lb_id * fps) fps lb.fp_queues
    → ((i : ℕ) → i < count → IsServing fps qs lbs i ((suc lb_id + i) * fps))
    → (i : ℕ) → i < suc count
    → IsServing fps qs (lb ∷ lbs) i ((lb_id + i) * fps)
unfolding IsServing item_at
IsServing-cons fps qs lb_id count lb lbs h k zero l =
    (lb, refl, h.0, subst (λ n. IsSlice qs (n * fps) fps lb.fp_queues) (omega arith) h.1)
IsServing-cons fps qs lb_id count lb lbs h k (suc i) l =
    subst (λ n. IsServing fps qs lbs i (n * fps)) (omega arith) (k i (omega arith))

mul_suc : (a b fps : ℕ) → (a + suc b) * fps ≡ (suc a + b) * fps
mul_suc a b fps = ap (λ n. n * fps) (omega arith)

mul_room : (a b fps n : ℕ) → (a + suc b) * fps ≤ n → a * fps + fps ≤ n
mul_room a b fps n h = omega (arith, add-mul a (suc b) fps, suc-mul b fps)

balancers_from-IsServing {ℓ} :
    {Q : Type ℓ} (fps : ℕ) (qs : List Q) (lb_id count : ℕ)
    → (lb_id + count) * fps ≤ length qs
    → (lbs : List (LoadBalancer Q)) × (balancers_from fps qs lb_id count ≡ ok lbs)
      × ((i : ℕ) → i < count → IsServing fps qs lbs i ((lb_id + i) * fps))
unfolding balancers_from
balancers_from-IsServing {Q = Q} fps qs lb_id zero h = ([], refl, λ i k. absurd (omega arith))
balancers_from-IsServing {Q = Q} fps qs lb_id (suc count) h =
    let (s, e, g) =
      fp_slice-IsSlice qs (lb_id * fps) fps (mul_room lb_id count fps (length qs) h) in
    let (lbs, f, k) =
      balancers_from-IsServing fps qs (suc lb_id) count
        (subst (λ n. n ≤ length qs) (mul_suc lb_id count fps) h) in
    let lb : LoadBalancer Q = record {
      lb_id = lb_id;
      fp_start_id = lb_id * fps;
      num_fps = fps;
      fp_queues = s;
    } in
    (lb ∷ lbs, rw (e, f) refl, IsServing-cons fps qs lb_id count lb lbs (refl, g) k)

served-dispatch {ℓ} :
    {Q : Type ℓ} (std : StdHash) (num_lbs fps : ℕ) (qs : List Q) (lbs : List (LoadBalancer Q))
    (t : FiveTuple)
    → 0 < num_lbs
    → 0 < fps
    → IsServing fps qs lbs (lb_index std num_lbs t) ((0 + lb_index std num_lbs t) * fps)
    → dispatch std lbs num_lbs t ≡ item_at qs (worker std num_lbs fps t)
unfolding IsServing IsSlice dispatch worker select_fp
served-dispatch std num_lbs fps qs lbs t a b (lb, e, n, s) =
    ap (λ r. r >>= λ (l : LoadBalancer _). item_at l.fp_queues (hash std t % l.num_fps)) e
    ∙ ap (λ m. item_at lb.fp_queues (hash std t % m)) n
    ∙ s (hash std t % fps) (mod-lt (hash std t) b)
    ∙ ap (λ m. item_at qs (m * fps + hash std t % fps)) (omega arith)

-- With positive counts and a queue for every worker, the load balancers are built, and a packet
-- lands in the queue of its worker.
pub dispatch-worker {ℓ} :
    {Q : Type ℓ} (std : StdHash) (num_lbs fps_per_lb : ℕ) (qs : List Q) (t : FiveTuple)
    → 0 < num_lbs
    → 0 < fps_per_lb
    → num_lbs * fps_per_lb ≤ length qs
    → (lbs : List (LoadBalancer Q)) × (make_balancers num_lbs fps_per_lb qs ≡ ok lbs)
      × (dispatch std lbs num_lbs t ≡ item_at qs (worker std num_lbs fps_per_lb t))
unfolding make_balancers
dispatch-worker std num_lbs fps_per_lb qs t a b h =
    let (lbs, e, k) =
      balancers_from-IsServing fps_per_lb qs 0 num_lbs
        (subst (λ n. n * fps_per_lb ≤ length qs) (omega arith) h) in
    (
      lbs,
      e,
      served-dispatch std num_lbs fps_per_lb qs lbs t a b
          (k (lb_index std num_lbs t) (unfold lb_index in mod-lt (hash std t) a)),
    )

-- Packets that share a connection record go to one worker.
pub worker-canonical :
    (std : StdHash) (num_lbs fps_per_lb : ℕ) (s t : FiveTuple)
    → canonical_tuple s ≡ canonical_tuple t
    → worker std num_lbs fps_per_lb s ≡ worker std num_lbs fps_per_lb t
unfolding worker lb_index select_fp
worker-canonical std num_lbs fps_per_lb s t e =
    ap (λ h. h % num_lbs * fps_per_lb + h % fps_per_lb) (hash-canonical std s t e)

-- With as many load balancers as workers behind each, a packet goes to a worker whose number is a
-- multiple of one more than that: every other worker stays idle.
pub worker-diagonal :
    (std : StdHash) (n : ℕ) (t : FiveTuple) → worker std n n t ≡ lb_index std n t * suc n
unfolding worker lb_index select_fp
worker-diagonal std n t = omega (arith)
