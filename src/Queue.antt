-- ===== src/Queue.antt =====
-- The bounded queue between the threads: include/thread_safe_queue.h. The mutex makes each call
-- atomic, so a call is a function on the whole queue; a call that would wait on a condition
-- variable has no result yet.
pub mod Fifo
use deep_packet_analyzer.Base.{
  ℕ, ◌+◌, Bool, true, false, not, ◌||◌, List, [], ◌∷◌, ◌++◌, Option, none, some, ltb, leb,
  if◌then◌else◌, length,
}

pub record Queue {ℓ} (T : Type ℓ) : Type ℓ where
  pub items : List T
  pub max_size : ℕ
  pub is_shutdown : Bool

unfoldable pub new_queue {ℓ} : {T : Type ℓ} → ℕ → Queue T
new_queue max_size = record { items = []; max_size = max_size; is_shutdown = false }

-- `push`: `none` while it waits; after a shutdown the item is dropped.
unfoldable pub push {ℓ} : {T : Type ℓ} → Queue T → T → Option (Queue T)
push q item =
    if not (ltb (length q.items) q.max_size || q.is_shutdown)
    then none
    else if q.is_shutdown
    then some q
    else some (record q { items = q.items ++ item ∷ [] })

unfoldable pub try_push {ℓ} : {T : Type ℓ} → Queue T → T → Bool × Queue T
try_push q item =
    if leb q.max_size (length q.items) || q.is_shutdown
    then (false, q)
    else (true, record q { items = q.items ++ item ∷ [] })

-- The front of the queue, and the queue without it.
unfoldable pub pop_front {ℓ} : {T : Type ℓ} → Queue T → List T → Option T × Queue T
pop_front q [] = (none, q)
pop_front q (x ∷ xs) = (some x, record q { items = xs })

abbrev pub is_empty {ℓ} : {T : Type ℓ} → List T → Bool
is_empty [] = true
is_empty (x ∷ xs) = false

-- `pop`: `none` while it waits.
unfoldable pub pop {ℓ} : {T : Type ℓ} → Queue T → Option (Option T × Queue T)
unfolding pop_front
pop q = if not (not (is_empty q.items) || q.is_shutdown) then none else some (pop_front q q.items)

-- `popWithTimeout`: what it returns at the moment when it stops waiting.
unfoldable pub pop_with_timeout {ℓ} : {T : Type ℓ} → Queue T → Option T × Queue T
unfolding pop_front
pop_with_timeout q = pop_front q q.items

unfoldable pub shutdown {ℓ} : {T : Type ℓ} → Queue T → Queue T
shutdown q = record q { is_shutdown = true }
