-- ===== src/Pipeline/Stages.antt =====
-- The lists that the steps of the engine move jobs between.
use deep_packet_analyzer.Base.{
  ℕ, ◌<◌, ◌≡◌, refl, ap, length, true, false, List, [], ◌∷◌, ◌++◌, Option, some, ◌==◌, arith,
}
use deep_packet_analyzer.Queue.{Queue, push, pop_front, pop_with_timeout}
use deep_packet_analyzer.Pipeline.{set_at}

pub set_at_here {ℓ} :
    {A : Type ℓ} (i : ℕ) (a : A) (f : ℕ → A) (k : ℕ) → (k == i) ≡ true → set_at i a f k ≡ a
set_at_here i a f k e = rw e refl

pub set_at_other {ℓ} :
    {A : Type ℓ} (i : ℕ) (a : A) (f : ℕ → A) (k : ℕ) → (k == i) ≡ false → set_at i a f k ≡ f k
set_at_other i a f k e = rw e refl

module _ {ℓ} {T : Type ℓ} where
  -- An open queue keeps its items in front of the one that is pushed.
  pub push-items :
      (q q' : Queue T) (x : T)
      → push q x ≡ some q'
      → q.is_shutdown ≡ false
      → (q'.items ≡ q.items ++ x ∷ []) × (q'.is_shutdown ≡ false)
  unfolding push
  push-items q q' x e o = ground arith

  -- What a pop leaves is the queue behind its first item.
  pop_front-items :
      (q q' : Queue T) (xs : List T) (x : T)
      → pop_front q xs ≡ (some x, q')
      → (xs ≡ x ∷ q'.items) × (q'.is_shutdown ≡ q.is_shutdown)
  unfolding pop_front
  pop_front-items q q' [] x e = ground arith
  pop_front-items q q' (y ∷ ys) x e = ground arith

  pub pop-items :
      (q q' : Queue T) (x : T)
      → pop_with_timeout q ≡ (some x, q')
      → (q.items ≡ x ∷ q'.items) × (q'.is_shutdown ≡ q.is_shutdown)
  unfolding pop_with_timeout
  pop-items q q' x e = pop_front-items q q' q.items x e

  -- A queue with room for one item takes one when it is empty; a pop takes what is in front.
  pub push-empty :
      (q : Queue T) (x : T)
      → q.items ≡ []
      → 0 < q.max_size
      → q.is_shutdown ≡ false
      → (q' : Queue T) × (push q x ≡ some q')
  unfolding push
  push-empty q x e m o = (record q { items = q.items ++ x ∷ [] }, ground (arith, ap length e))

  pub push-max_size : (q q' : Queue T) (x : T) → push q x ≡ some q' → q'.max_size ≡ q.max_size
  unfolding push
  push-max_size q q' x e = ground arith

  pop_front-max_size :
      (q q' : Queue T) (xs : List T) (o : Option T)
      → pop_front q xs ≡ (o, q')
      → q'.max_size ≡ q.max_size
  unfolding pop_front
  pop_front-max_size q q' [] o e = ground arith
  pop_front-max_size q q' (y ∷ ys) o e = ground arith

  pub pop-max_size :
      (q q' : Queue T) (o : Option T) → pop_with_timeout q ≡ (o, q') → q'.max_size ≡ q.max_size
  unfolding pop_with_timeout
  pop-max_size q q' o e = pop_front-max_size q q' q.items o e

  pub pop-cons :
      (q : Queue T) (x : T) (xs : List T)
      → q.items ≡ x ∷ xs
      → pop_with_timeout q ≡ (some x, record q { items = xs })
  unfolding pop_with_timeout pop_front
  pop-cons q x xs e = ap (pop_front q) e
