-- ===== src/Commands.antt =====
-- crates/ize/src/main.rs, the mount command: the thread that takes opcodes from the queue and
-- records them. Projects has the commands on projects.
pub mod Projects
pub mod Laws
pub mod Removal
pub mod Session
pub mod Mount
pub mod MountFd
pub mod Table
pub mod Export
mod Tests
use ize.Prelude.{ℕ, zero, suc, Option, some, none, String}
use ize.FilePath.{FilePath}
use ize.Operations.Queue.{OpcodeQueue, try_pop}
use ize.Pijul.Operations.{PijulBackend, apply_opcode}

module _ (to_str : FilePath → Option String) (B : PijulBackend) where
  -- The queue and the repository.
  pub record Consumer : Type 0 where
    pub queue : OpcodeQueue
    pub repository : B.State

  -- One turn of the loop while the flag is set: what `apply_opcode` replies is only logged.
  unfoldable pub turn : Consumer → Consumer
  turn k =
      let (queue, popped) = try_pop k.queue in
      elim popped [
        | none ↦ record k { queue = queue }
        | some opcode ↦ record {
          queue = queue;
          repository = (apply_opcode to_str B opcode k.repository).0;
        }
      ]

  -- The loop, with the number of turns that the flag allows.
  unfoldable pub consume : ℕ → Consumer → Consumer
  unfolding turn
  consume zero k = k
  consume (suc n) k = consume n (turn k)
