-- ===== src/Operations/Queue/Threads.antt =====
-- The queue shared by threads: every interleaving of the methods, of `Condvar::notify_one`, which
-- follows each push after the mutex is free, and of threads inside the blocking `pop`. A thread in
-- `pop` is `ready` when it is about to take the mutex and test the queue, and `waiting` inside
-- `Condvar::wait`, which may also wake for no reason.
use ize.Prelude.{ℕ, suc, ◌+◌, ◌≡◌, List, [], ◌∷◌, ◌++◌, some, ok, err, true}
use ize.Operations.Opcode.{Opcode}
use ize.Operations.Queue.{OpcodeQueue, push, try_push, try_pop, drain, empty?}

-- `sent` and `taken` are the opcodes that entered and left the queue so far, in order.
pub record System : Type 0 where
  pub shared : OpcodeQueue
  pub pending : ℕ
  pub ready : ℕ
  pub waiting : ℕ
  pub sent : List Opcode
  pub taken : List Opcode

unfoldable pub start : OpcodeQueue → System
start q = record { shared = q; pending = 0; ready = 0; waiting = 0; sent = q.queue; taken = [] }

pub data Step (s : System) : System → Type 0 where
  pushes :
      (o : Opcode)
      → Step s (record s {
        shared = push s.shared o;
        pending = s.pending + 1;
        sent = s.sent ++ (o ∷ []);
      })
  try_pushes :
      (o : Opcode) (q : OpcodeQueue)
      → try_push s.shared o ≡ (q, ok tt)
      → Step s (record s { shared = q; pending = s.pending + 1; sent = s.sent ++ (o ∷ []) })
  refuses :
      (o r : Opcode) (q : OpcodeQueue)
      → try_push s.shared o ≡ (q, err r)
      → Step s (record s { shared = q })
  -- `notify_one` wakes one waiting thread, and is lost if there is none.
  notifies :
      (n w : ℕ)
      → s.pending ≡ suc n
      → s.waiting ≡ suc w
      → Step s (record s { pending = n; waiting = w; ready = s.ready + 1 })
  notifies_nobody : (n : ℕ) → s.pending ≡ suc n → s.waiting ≡ 0 → Step s (record s { pending = n })
  -- `pop` is called; it finds the queue empty and waits, or takes the front; a wait may end early.
  enters : Step s (record s { ready = s.ready + 1 })
  sleeps :
      (r : ℕ)
      → s.ready ≡ suc r
      → empty? s.shared ≡ true
      → Step s (record s { ready = r; waiting = s.waiting + 1 })
  takes :
      (r : ℕ) (o : Opcode) (q : OpcodeQueue)
      → s.ready ≡ suc r
      → try_pop s.shared ≡ (q, some o)
      → Step s (record s { shared = q; ready = r; taken = s.taken ++ (o ∷ []) })
  wakes : (w : ℕ) → s.waiting ≡ suc w → Step s (record s { waiting = w; ready = s.ready + 1 })
  try_pops :
      (o : Opcode) (q : OpcodeQueue)
      → try_pop s.shared ≡ (q, some o)
      → Step s (record s { shared = q; taken = s.taken ++ (o ∷ []) })
  drains :
      (q : OpcodeQueue) (os : List Opcode)
      → drain s.shared ≡ (q, os)
      → Step s (record s { shared = q; taken = s.taken ++ os })

pub data Reach (q : OpcodeQueue) : System → Type 0 where
  begin : Reach q (start q)
  next : {s t : System} → Reach q s → Step s t → Reach q t
