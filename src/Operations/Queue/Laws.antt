-- ===== src/Operations/Queue/Laws.antt =====
-- What the queue promises: order, capacity, and that no thread sleeps through a push.
use ize.Prelude.{
  ℕ, ◌+◌, ◌≤◌, ◌≡◌, refl, ◌≢◌, ◌⊎◌, inl, inr, List, [], ◌∷◌, ◌++◌, some, append-nil, append_assoc,
  arith, length, length-append, sym, ap, ◌∙◌,
}
use ize.Operations.Opcode.{Opcode}
use ize.Operations.Queue.{OpcodeQueue, push, try_push, try_pop, drain, empty?, pop_front}
use ize.Operations.Queue.Threads.{
  System, start, Step, pushes, try_pushes, refuses, notifies, notifies_nobody, enters, sleeps,
  takes, wakes, try_pops, drains, Reach, begin, next,
}

empty_of_length : (xs : List Opcode) → length xs ≤ 0 → xs ≡ []
empty_of_length [] h = refl
empty_of_length (x ∷ xs) h = absurd (omega arith)

-- `try_push` does not take a queue within its capacity over it, and does not change the capacity.
pub try_push_bounded :
    (q : OpcodeQueue) (o : Opcode)
    → length q.queue ≤ q.capacity
    → (length (try_push q o).0.queue ≤ (try_push q o).0.capacity)
      × ((try_push q o).0.capacity ≡ q.capacity)
unfolding try_push
try_push_bounded q o h = ground (arith, length-append q.queue (o ∷ []))

-- What left the queue, followed by what is in it, is what was sent.
append-push :
    (xs ys zs : List Opcode) (o : Opcode) → xs ++ ys ≡ zs → xs ++ (ys ++ (o ∷ [])) ≡ zs ++ (o ∷ [])
append-push xs ys zs o h = sym (append_assoc xs ys (o ∷ [])) ∙ ap (λ l. l ++ (o ∷ [])) h

pop_front_cases :
    (xs : List Opcode) (k : ℕ) (o : Opcode) (q : OpcodeQueue)
    → pop_front xs k ≡ (q, some o)
    → xs ≡ o ∷ q.queue
pop_front_cases [] k o q h = ground arith
pop_front_cases (x ∷ xs) k o q h = ground arith

move_front :
    (xs ys zs rest : List Opcode) (o : Opcode)
    → ys ≡ o ∷ rest
    → xs ++ ys ≡ zs
    → (xs ++ (o ∷ [])) ++ rest ≡ zs
move_front xs ys zs rest o e h = append_assoc xs (o ∷ []) rest ∙ ap (λ l. xs ++ l) (sym e) ∙ h

abbrev InOrder : System → Type 0
InOrder s = s.taken ++ s.shared.queue ≡ s.sent

-- While a thread waits, each queued opcode has a notification or a ready thread of its own.
abbrev IsServed : System → Type 0
IsServed s = (s.waiting ≡ 0) ⊎ (length s.shared.queue ≤ s.pending + s.ready)

Step-InOrder : {s t : System} → Step s t → InOrder s → InOrder t
unfolding push try_push try_pop drain
Step-InOrder {s} (pushes o) h = append-push s.taken s.shared.queue s.sent o h
Step-InOrder {s} (try_pushes o q e) h =
    ground (arith, append-push s.taken s.shared.queue s.sent o h)
Step-InOrder (refuses o r q e) h = ground arith
Step-InOrder (notifies n w p e) h = h
Step-InOrder (notifies_nobody n p e) h = h
Step-InOrder enters h = h
Step-InOrder (sleeps r e f) h = h
Step-InOrder {s} (takes r o q e f) h =
    move_front s.taken s.shared.queue s.sent q.queue o (pop_front_cases _ _ o q f) h
Step-InOrder (wakes w e) h = h
Step-InOrder {s} (try_pops o q e) h =
    move_front s.taken s.shared.queue s.sent q.queue o (pop_front_cases _ _ o q e) h
Step-InOrder {s} (drains q os e) h = ground (arith, append-nil (s.taken ++ os))

Step-IsServed : {s t : System} → Step s t → IsServed s → IsServed t
unfolding push try_push try_pop drain empty?
Step-IsServed {s} (pushes o) h = ground (arith, length-append s.shared.queue (o ∷ []))
Step-IsServed {s} (try_pushes o q e) h = ground (arith, length-append s.shared.queue (o ∷ []))
Step-IsServed (refuses o r q e) h = ground arith
Step-IsServed (notifies n w p e) h = ground arith
Step-IsServed (notifies_nobody n p e) h = inl e
Step-IsServed enters h = ground arith
Step-IsServed (sleeps r e f) h = ground arith
Step-IsServed {s} (takes r o q e f) h = ground arith
Step-IsServed (wakes w e) h = ground arith
Step-IsServed {s} (try_pops o q e) h = ground arith
Step-IsServed {s} (drains q os e) h = ground arith

Reach-InOrder : {q : OpcodeQueue} {s : System} → Reach q s → InOrder s
unfolding start
Reach-InOrder begin = refl
Reach-InOrder (next r st) = Step-InOrder st (Reach-InOrder r)

Reach-IsServed : {q : OpcodeQueue} {s : System} → Reach q s → IsServed s
unfolding start
Reach-IsServed begin = inl refl
Reach-IsServed (next r st) = Step-IsServed st (Reach-IsServed r)

-- Under every interleaving of producers and consumers, what was taken from the queue, followed by
-- what it still holds, is what was in it at first and was then sent, in that order: no accepted
-- opcode is lost, doubled or overtaken.
pub fifo_order : {q : OpcodeQueue} {s : System} → Reach q s → s.taken ++ s.shared.queue ≡ s.sent
fifo_order r = Reach-InOrder r

-- No wakeup is lost: in every reachable state with an opcode in the queue, no notification under
-- way and no thread about to test the queue, no thread is asleep in `pop`.
pub no_lost_wakeup :
    {q : OpcodeQueue} {s : System}
    → Reach q s
    → s.shared.queue ≢ []
    → s.pending ≡ 0
    → s.ready ≡ 0
    → s.waiting ≡ 0
no_lost_wakeup {s} r full quiet idle = elim (Reach-IsServed r) [
  | inl none_waits ↦ none_waits
  | inr served ↦ absurd (full (empty_of_length s.shared.queue (omega arith)))
]
