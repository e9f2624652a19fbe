-- ===== src/Commands/Laws.antt =====
-- What the consumer's loop has recorded after a number of turns.
use ize.Prelude.{ℕ, zero, suc, ◌≡◌, refl, sym, ◌∙◌, ap, List, [], ◌∷◌, Option, String, take, drop}
use ize.FilePath.{FilePath}
use ize.Operations.Opcode.{Opcode}
use ize.Operations.Queue.{try_pop}
use ize.Pijul.Operations.{PijulBackend, apply_opcode}
use ize.Pijul.Operations.Calls.{make_all, calls_for, apply_opcode-call_for}
use ize.Commands.{Consumer, turn, consume}

module _ (to_str : FilePath → Option String) (B : PijulBackend) where
  -- The opcodes recorded one after the other.
  unfoldable pub apply_all : List Opcode → B.State → B.State
  apply_all [] s = s
  apply_all (o ∷ os) s = apply_all os (apply_opcode to_str B o s).0

  -- What the opcodes do to the repository is what the calls that they are worth do.
  pub apply_all-make_all :
      (os : List Opcode) (s : B.State) → apply_all os s ≡ make_all B (calls_for to_str os) s
  unfolding apply_all make_all calls_for
  apply_all-make_all [] s = refl
  apply_all-make_all (o ∷ os) s =
      apply_all-make_all os (apply_opcode to_str B o s).0
      ∙ sym (apply_opcode-call_for B to_str o os s)

  consume_queue :
      (n : ℕ) (os : List Opcode) (c : ℕ) (s : B.State)
      → consume to_str B n (record { queue = record { queue = os; capacity = c }; repository = s })
        ≡ record {
          queue = record { queue = drop n os; capacity = c };
          repository = apply_all (take n os) s;
        }
  unfolding consume turn apply_all try_pop
  consume_queue zero os c s = refl
  consume_queue (suc zero) [] c s = refl
  consume_queue (suc (suc n)) [] c s = consume_queue (suc n) [] c s
  consume_queue (suc n) (o ∷ os) c s = consume_queue n os c (apply_opcode to_str B o s).0

  -- After any number of turns the opcodes at the front of the queue, as many as there were turns,
  -- have been recorded in their order, whether or not some failed; those behind them are still in
  -- the queue, and are lost if the loop ends there.
  consume_takes :
      (n : ℕ) (k : Consumer to_str B)
      → ((consume to_str B n k).repository ≡ apply_all (take n k.queue.queue) k.repository)
        × ((consume to_str B n k).queue.queue ≡ drop n k.queue.queue)
  consume_takes n k =
      let e = consume_queue n k.queue.queue k.queue.capacity k.repository in
      (ap (λ c. c.repository) e, ap (λ c. c.queue.queue) e)
