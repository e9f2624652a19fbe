-- ===== src/Operations/Recorder/Laws.antt =====
-- What `emit` does to the queue and to the counter, one operation and then a list of them.
use ize.Prelude.{
  ℕ, zero, suc, ◌+◌, ◌-◌, take, ◌≤◌, ◌<◌, ◌≡◌, refl, ap, ◌∙◌, List, [], ◌∷◌, ◌++◌, append-nil,
  append_assoc, arith, length, length-append,
}
use ize.Filesystems.Observer.{Event}
use ize.Operations.Opcode
use ize.Operations.Opcode.{Opcode, u64_mod, SystemTime}
use ize.Operations.Operation.{Operation}
use ize.Operations.Queue.{try_send}
use ize.Operations.Recorder.{Os, OpcodeRecorder, emit, observe}
use ize.Operations.Recorder.Meaning.{meaning, emit_all, observe-meaning}

-- The opcodes for the operations, numbered from `seq`.
unfoldable pub number : (ℕ → SystemTime) → ℕ → List Operation → List Opcode
number time seq [] = []
number time seq (op ∷ ops) = Opcode.new (time seq) seq op ∷ number time (seq + 1) ops

pub number-append :
    (time : ℕ → SystemTime) (n : ℕ) (xs ys : List Operation)
    → number time n (xs ++ ys) ≡ number time n xs ++ number time (n + length xs) ys
unfolding number
number-append time n [] ys = ap (λ k. number time k ys) (omega arith)
number-append time n (x ∷ xs) ys =
    ap (λ l. Opcode.new (time n) n x ∷ l)
      (number-append time (n + 1) xs ys
        ∙ ap (λ k. number time (n + 1) xs ++ number time k ys) (omega arith))

pub length-number :
    (time : ℕ → SystemTime) (n : ℕ) (xs : List Operation) → length (number time n xs) ≡ length xs
unfolding number
length-number time n [] = refl
length-number time n (x ∷ xs) = ap suc (length-number time (n + 1) xs)

-- The recorder once the queue has taken the opcode for `op`.
abbrev appended : Os → OpcodeRecorder → Operation → OpcodeRecorder
appended os r op = record r {
  next_seq = r.next_seq + 1;
  sender = record (r.sender) {
    queue = r.sender.queue ++ (Opcode.new (os.clock r.next_seq) r.next_seq op ∷ []);
  };
}

module _ (os : Os) where
  pub emit_room :
      (r : OpcodeRecorder) (op : Operation)
      → length r.sender.queue < r.sender.capacity
      → r.next_seq + 1 < u64_mod
      → emit os r op ≡ appended os r op
  unfolding emit try_send
  emit_room r op room small = ground arith

  pub emit_full :
      (r : OpcodeRecorder) (op : Operation)
      → r.sender.capacity ≤ length r.sender.queue
      → r.next_seq + 1 < u64_mod
      → emit os r op ≡ record r { next_seq = r.next_seq + 1 }
  unfolding emit try_send
  emit_full r op full small = ground arith

  emit_all_room :
      (r : OpcodeRecorder) (ops : List Operation)
      → length r.sender.queue + length ops ≤ r.sender.capacity
      → r.next_seq + length ops < u64_mod
      → emit_all os r ops ≡ record r {
        next_seq = r.next_seq + length ops;
        sender = record (r.sender) { queue = r.sender.queue ++ number os.clock r.next_seq ops };
      }
  unfolding emit_all number
  emit_all_room r [] room small = ground (arith, append-nil r.sender.queue)
  emit_all_room r (op ∷ ops) room small = rw (emit_room r op (omega arith) (omega arith)) (
      emit_all_room (appended os r op) ops
        (omega (arith, length-append r.sender.queue (first ∷ []))) (omega arith)
      ∙ ground
          (arith, append_assoc r.sender.queue (first ∷ []) (number os.clock (r.next_seq + 1) ops)))
    where
      first : Opcode
      first = Opcode.new (os.clock r.next_seq) r.next_seq op

  -- With room for all of them, and while the counter does not wrap around, a callback appends an
  -- opcode for each operation that the notification stands for, in order and with consecutive
  -- numbers, and changes nothing else.
  pub observe_room :
      (e : Event) (r : OpcodeRecorder)
      → length r.sender.queue + length (meaning os r e) ≤ r.sender.capacity
      → r.next_seq + length (meaning os r e) < u64_mod
      → observe os e r ≡ record r {
        next_seq = r.next_seq + length (meaning os r e);
        sender = record (r.sender) {
          queue = r.sender.queue ++ number os.clock r.next_seq (meaning os r e);
        };
      }
  observe_room e r room small = observe-meaning os e r ∙ emit_all_room r (meaning os r e) room small

  -- The opcodes that a queue takes of those for the operations, from the first on: as many as there
  -- is room for.
  abbrev pub sent : OpcodeRecorder → List Operation → List Opcode
  sent r ops = take (r.sender.capacity - length r.sender.queue) (number os.clock r.next_seq ops)

  abbrev Sent : List Operation → Type 0
  Sent ops =
      (r : OpcodeRecorder)
      → r.next_seq + length ops < u64_mod
      → emit_all os r ops ≡ record r {
        next_seq = r.next_seq + length ops;
        sender = record (r.sender) { queue = r.sender.queue ++ sent r ops };
      }

  take-none : (n : ℕ) → take {A = Opcode} n [] ≡ []
  take-none zero = refl
  take-none (suc n) = refl

  emit_room_sends :
      (op : Operation) (ops : List Operation) (r : OpcodeRecorder) (room : ℕ)
      → Sent ops
      → r.sender.capacity - length r.sender.queue ≡ suc room
      → r.next_seq + length (op ∷ ops) < u64_mod
      → emit_all os r (op ∷ ops) ≡ record r {
        next_seq = r.next_seq + length (op ∷ ops);
        sender = record (r.sender) { queue = r.sender.queue ++ sent r (op ∷ ops) };
      }
  unfolding emit_all number
  emit_room_sends op ops r room ih more small =
      let first = Opcode.new (os.clock r.next_seq) r.next_seq op in
      let later = number os.clock (r.next_seq + 1) ops in
      let left : r.sender.capacity - length (r.sender.queue ++ (first ∷ [])) ≡ room =
        omega (arith, more, length-append r.sender.queue (first ∷ [])) in
      rw (emit_room r op (omega (arith, more)) (omega arith)) (
        ih (appended os r op) (omega arith)
        ∙ rw (left, more)
            (ground (arith, append_assoc r.sender.queue (first ∷ []) (take room later))))

  emit_full_sends :
      (op : Operation) (ops : List Operation) (r : OpcodeRecorder)
      → Sent ops
      → r.sender.capacity - length r.sender.queue ≡ 0
      → r.next_seq + length (op ∷ ops) < u64_mod
      → emit_all os r (op ∷ ops) ≡ record r {
        next_seq = r.next_seq + length (op ∷ ops);
        sender = record (r.sender) { queue = r.sender.queue ++ sent r (op ∷ ops) };
      }
  unfolding emit_all number
  emit_full_sends op ops r ih none_left small =
      rw (emit_full r op (omega (arith, none_left)) (omega arith))
        (ih (record r { next_seq = r.next_seq + 1 }) (omega arith) ∙ rw none_left (ground arith))

  emit_all_sends : (ops : List Operation) → Sent ops
  unfolding emit_all number
  emit_all_sends [] r small =
      rw (take-none (r.sender.capacity - length r.sender.queue))
        (ground (arith, append-nil r.sender.queue))
  emit_all_sends (op ∷ ops) r small =
      by_room (emit_all_sends ops) (r.sender.capacity - length r.sender.queue) refl
    where
      by_room :
          Sent ops
          → (room : ℕ) → r.sender.capacity - length r.sender.queue ≡ room
          → emit_all os r (op ∷ ops) ≡ record r {
            next_seq = r.next_seq + length (op ∷ ops);
            sender = record (r.sender) { queue = r.sender.queue ++ sent r (op ∷ ops) };
          }
      by_room ih zero e = emit_full_sends op ops r ih e small
      by_room ih (suc room) e = emit_room_sends op ops r room ih e small

  -- Of the operations that a notification stands for, found from the paths, the ignore filters and
  -- the kinds of file, the queue takes as many as there is room for, from the first on, each as an
  -- opcode behind what it had, numbered from the counter; those that do not fit are dropped, the
  -- counter passes them all the same (while it does not wrap around), and nothing else changes.
  pub observe_sends :
      (e : Event) (r : OpcodeRecorder)
      → r.next_seq + length (meaning os r e) < u64_mod
      → observe os e r ≡ record r {
        next_seq = r.next_seq + length (meaning os r e);
        sender = record (r.sender) { queue = r.sender.queue ++ sent r (meaning os r e) };
      }
  observe_sends e r small = observe-meaning os e r ∙ emit_all_sends (meaning os r e) r small
