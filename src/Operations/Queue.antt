-- ===== src/Operations/Queue.antt =====
-- crates/ize-lib/src/operations/queue.rs. A method runs under the queue's mutex from its first line
-- to its last read or write, so each is one function on the state; the blocking `pop`, which gives
-- the mutex up while it waits, is a step of Threads.
pub mod Threads
pub mod Laws
use ize.Prelude.{
  ℕ, Bool, List, [], ◌∷◌, ◌++◌, Option, none, some, Result, ok, err, leb, length, is_empty,
  if◌then◌else◌,
}
use ize.Operations.Opcode.{Opcode}

abbrev pub default_capacity : ℕ
default_capacity = 10_000

-- `QueueInner`, the front of the `VecDeque` first.
pub record OpcodeQueue : Type 0 where
  pub queue : List Opcode
  pub capacity : ℕ

unfoldable pub with_capacity : ℕ → OpcodeQueue
with_capacity capacity = record { queue = []; capacity = capacity }

unfoldable pub new : OpcodeQueue
unfolding with_capacity
new = with_capacity default_capacity

abbrev pub push_back : OpcodeQueue → Opcode → OpcodeQueue
push_back q opcode = record q { queue = q.queue ++ (opcode ∷ []) }

unfoldable pub try_push : OpcodeQueue → Opcode → OpcodeQueue × Result (Unit {0}) Opcode
try_push q opcode =
    if leb q.capacity (length q.queue) then (q, err opcode) else (push_back q opcode, ok tt)

unfoldable pub push : OpcodeQueue → Opcode → OpcodeQueue
push q opcode = push_back q opcode

-- `VecDeque::pop_front`
abbrev pub pop_front : List Opcode → ℕ → OpcodeQueue × Option Opcode
pop_front [] capacity = (record { queue = []; capacity = capacity }, none)
pop_front (opcode ∷ rest) capacity = (record { queue = rest; capacity = capacity }, some opcode)

unfoldable pub try_pop : OpcodeQueue → OpcodeQueue × Option Opcode
try_pop q = pop_front q.queue q.capacity

unfoldable pub drain : OpcodeQueue → OpcodeQueue × List Opcode
drain q = (record q { queue = [] }, q.queue)

unfoldable pub empty? : OpcodeQueue → Bool
empty? q = is_empty q.queue

unfoldable pub len : OpcodeQueue → ℕ
len q = length q.queue

unfoldable pub peek_all : OpcodeQueue → List Opcode
peek_all q = q.queue

-- `OpcodeSender`: a handle on the same queue.
unfoldable pub try_send : OpcodeQueue → Opcode → OpcodeQueue × Result (Unit {0}) Opcode
unfolding try_push
try_send q opcode = try_push q opcode

unfoldable pub send : OpcodeQueue → Opcode → OpcodeQueue
unfolding push
send q opcode = push q opcode
