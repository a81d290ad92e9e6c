-- ===== src/Queue/Fifo.antt =====
-- The queue over any sequence of calls: nothing is lost, reordered or invented, and it never holds
-- more than its limit.
use deep_packet_analyzer.Base.{
  ℕ, ◌≤◌, ◌≡◌, refl, sym, ap, ◌∙◌, true, false, List, [], ◌∷◌, ◌++◌, append_assoc, append-nil, none,
  some, length, length-append, arith,
}
use deep_packet_analyzer.Queue.{
  Queue, new_queue, push, try_push, pop_front, pop, pop_with_timeout, shutdown,
}

module _ {ℓ} {T : Type ℓ} where
  -- One call, with the items that it took in and those that it gave out.
  pub data QueueStep (q : Queue T) : List T → List T → Queue T → Type ℓ where
    pushed :
        (x : T) (q' : Queue T)
        → q.is_shutdown ≡ false
        → push q x ≡ some q'
        → QueueStep q (x ∷ []) [] q'
    refused_push :
        (x : T) (q' : Queue T) → q.is_shutdown ≡ true → push q x ≡ some q' → QueueStep q [] [] q'
    tried : (x : T) (q' : Queue T) → try_push q x ≡ (true, q') → QueueStep q (x ∷ []) [] q'
    refused_try : (x : T) (q' : Queue T) → try_push q x ≡ (false, q') → QueueStep q [] [] q'
    popped : (x : T) (q' : Queue T) → pop q ≡ some (some x, q') → QueueStep q [] (x ∷ []) q'
    popped_nothing : (q' : Queue T) → pop q ≡ some (none, q') → QueueStep q [] [] q'
    timed : (x : T) (q' : Queue T) → pop_with_timeout q ≡ (some x, q') → QueueStep q [] (x ∷ []) q'
    timed_out : (q' : Queue T) → pop_with_timeout q ≡ (none, q') → QueueStep q [] [] q'
    shut : QueueStep q [] [] (shutdown q)

  -- Calls on a new queue.
  pub data QueueReach (max_size : ℕ) : List T → List T → Queue T → Type ℓ where
    start : QueueReach max_size [] [] (new_queue max_size)
    call :
        (ins outs xs ys : List T) (q q' : Queue T)
        → QueueReach max_size ins outs q
        → QueueStep q xs ys q'
        → QueueReach max_size (ins ++ xs) (outs ++ ys) q'

  IsStep : (q : Queue T) (xs ys : List T) (q' : Queue T) → Type ℓ
  IsStep q xs ys q' =
      (q.items ++ xs ≡ ys ++ q'.items)
      × (q'.max_size ≡ q.max_size)
      × (length q.items ≤ q.max_size → length q'.items ≤ q.max_size)

  QueueStep-IsStep :
      (q : Queue T) (xs ys : List T) (q' : Queue T) → QueueStep q xs ys q' → IsStep q xs ys q'
  unfolding IsStep push try_push pop pop_with_timeout pop_front shutdown
  QueueStep-IsStep q _ _ _ (pushed x q' d e) = ground (arith, d, e, length-append q.items (x ∷ []))
  QueueStep-IsStep q _ _ _ (refused_push x q' d e) = ground (arith, d, e, append-nil q.items)
  QueueStep-IsStep q _ _ _ (tried x q' e) = ground (arith, e, length-append q.items (x ∷ []))
  QueueStep-IsStep q _ _ _ (refused_try x q' e) = ground (arith, e, append-nil q.items)
  QueueStep-IsStep q _ _ _ (popped x q' e) = ground (arith, e, append-nil q.items)
  QueueStep-IsStep q _ _ _ (popped_nothing q' e) = ground (arith, e, append-nil q.items)
  QueueStep-IsStep q _ _ _ (timed x q' e) = ground (arith, e, append-nil q.items)
  QueueStep-IsStep q _ _ _ (timed_out q' e) = ground (arith, e, append-nil q.items)
  QueueStep-IsStep q _ _ _ shut = (append-nil q.items, refl, λ h. h)

  IsFifo : ℕ → List T → List T → Queue T → Type ℓ
  IsFifo max_size ins outs q =
      (ins ≡ outs ++ q.items) × (q.max_size ≡ max_size) × (length q.items ≤ max_size)

  IsFifo-step :
      (max_size : ℕ) (ins outs xs ys : List T) (q q' : Queue T)
      → IsFifo max_size ins outs q
      → IsStep q xs ys q'
      → IsFifo max_size (ins ++ xs) (outs ++ ys) q'
  unfolding IsFifo IsStep
  IsFifo-step max_size ins outs xs ys q q' h k = (
    ap (λ l. l ++ xs) h.0
        ∙ append_assoc outs q.items xs
        ∙ ap (λ l. outs ++ l) k.0
        ∙ sym (append_assoc outs ys q'.items),
    k.1 ∙ h.1,
    omega (arith, k.2 (omega (arith, h.1, h.2)), h.1),
  )

  reach-IsFifo :
      (max_size : ℕ) (ins outs : List T) (q : Queue T)
      → QueueReach max_size ins outs q
      → IsFifo max_size ins outs q
  reach-IsFifo max_size _ _ _ start = unfold IsFifo new_queue in (refl, refl, omega arith)
  reach-IsFifo max_size _ _ _ (call ins outs xs ys q q' r s) =
      IsFifo-step max_size ins outs xs ys q q' (reach-IsFifo max_size ins outs q r)
        (QueueStep-IsStep q xs ys q' s)

  -- After any calls on a new queue the items taken in are those given out, in the same order,
  -- followed by those in the queue, which are no more than its limit.
  pub QueueReach-fifo :
      (max_size : ℕ) (ins outs : List T) (q : Queue T)
      → QueueReach max_size ins outs q
      → (ins ≡ outs ++ q.items) × (length q.items ≤ max_size)
  unfolding IsFifo
  QueueReach-fifo max_size ins outs q r = let h = reach-IsFifo max_size ins outs q r in (h.0, h.2)
