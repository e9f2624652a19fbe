-- ===== src/Operations/Recorder/Invariant.antt =====
-- What holds of the recorder and its queue after any notifications: the numbers rise, the queue
-- stays within its capacity, no opcode names an ignored path, and none is a change of ownership.
use ize.Prelude.{
  ℕ, ◌+◌, ◌≤◌, ◌<◌, ◌≡◌, refl, append_assoc, Bool, true, false, List, [], ◌∷◌, ◌++◌, arith, All,
  All-append, any, length, length-append,
}
use ize.Filesystems.Observer.{
  Event, write, create, unlink, mkdir, rmdir, rename, setattr, symlink, link,
}
use ize.Operations.Opcode
use ize.Operations.Opcode.{Opcode, u64_mod}
use ize.Operations.Operation.{Operation, set_ownership}
use ize.Operations.Operation.Laws.{named_paths}
use ize.Operations.Recorder.{Os, OpcodeRecorder, emit, observe, is_ignored}
use ize.Vcs.{IgnoreFilter, should_ignore_path}
use ize.Operations.Recorder.Laws.{emit_room, emit_full}
use native.Mathlib.Decide.{dec_lt}
use mathlib.Core.Path.{subst}
use ize.Operations.Recorder.Meaning.{meaning, emit_all, observe-meaning}

-- Numbers rise along the list, from `lo` on and below `hi`.
abbrev pub Numbered : ℕ → ℕ → List Opcode → Type 0
Numbered lo hi [] = lo ≤ hi
Numbered lo hi (o ∷ os) = (lo ≤ o.seq) × Numbered (o.seq + 1) hi os

Numbered-mono : (lo hi : ℕ) (os : List Opcode) → Numbered lo hi os → Numbered lo (hi + 1) os
Numbered-mono lo hi [] h = omega arith
Numbered-mono lo hi (o ∷ os) h = (h.0, Numbered-mono (o.seq + 1) hi os h.1)

Numbered-push :
    (lo hi : ℕ) (os : List Opcode) (o : Opcode)
    → o.seq ≡ hi
    → Numbered lo hi os
    → Numbered lo (hi + 1) (os ++ (o ∷ []))
Numbered-push lo hi [] o e h = omega arith
Numbered-push lo hi (p ∷ os) o e h = (h.0, Numbered-push (p.seq + 1) hi os o e h.1)

-- No path that the operation names is ignored.
abbrev pub IsClean : List IgnoreFilter → Operation → Type 0
IsClean filters op = any (should_ignore_path filters) (named_paths op) ≡ false

abbrev pub is_set_ownership : Operation → Bool
is_set_ownership (set_ownership p uid gid) = true
is_set_ownership op = false

-- `before` is what the consumer took from the queue so far.
pub record IsSound (before : List Opcode) (r : OpcodeRecorder) : Type 0 where
  pub numbered : Numbered 0 r.next_seq (before ++ r.sender.queue)
  pub bounded : length r.sender.queue ≤ r.sender.capacity
  pub clean : All (λ o. IsClean r.ignore_filters o.op) r.sender.queue
  pub no_ownership : All (λ o. is_set_ownership o.op ≡ false) r.sender.queue

module _ (os : Os) (r : OpcodeRecorder) where
  meaning-IsClean : (e : Event) → All (λ op. IsClean r.ignore_filters op) (meaning os r e)
  unfolding meaning named_paths is_ignored should_ignore_path
  meaning-IsClean (write ino fh offset bytes) = ground arith
  meaning-IsClean (create parent name mode result_ino) = ground arith
  meaning-IsClean (unlink parent name) = ground arith
  meaning-IsClean (mkdir parent name mode result_ino) = ground arith
  meaning-IsClean (rmdir parent name) = ground arith
  meaning-IsClean (rename parent name newparent newname) = ground arith
  meaning-IsClean (setattr ino size mode atime mtime) = ground arith
  meaning-IsClean (symlink parent name target) = ground arith
  meaning-IsClean (link ino newparent newname) = ground arith

  meaning-no_ownership : (e : Event) → All (λ op. is_set_ownership op ≡ false) (meaning os r e)
  unfolding meaning
  meaning-no_ownership (write ino fh offset bytes) = ground arith
  meaning-no_ownership (create parent name mode result_ino) = ground arith
  meaning-no_ownership (unlink parent name) = ground arith
  meaning-no_ownership (mkdir parent name mode result_ino) = ground arith
  meaning-no_ownership (rmdir parent name) = ground arith
  meaning-no_ownership (rename parent name newparent newname) = ground arith
  meaning-no_ownership (setattr ino size mode atime mtime) = ground arith
  meaning-no_ownership (symlink parent name target) = ground arith
  meaning-no_ownership (link ino newparent newname) = ground arith

  -- A notification stands for at most three operations.
  pub length-meaning-le : (e : Event) → length (meaning os r e) ≤ 3
  unfolding meaning
  length-meaning-le (write ino fh offset bytes) = ground arith
  length-meaning-le (create parent name mode result_ino) = ground arith
  length-meaning-le (unlink parent name) = ground arith
  length-meaning-le (mkdir parent name mode result_ino) = ground arith
  length-meaning-le (rmdir parent name) = ground arith
  length-meaning-le (rename parent name newparent newname) = ground arith
  length-meaning-le (setattr ino size mode atime mtime) = ground arith
  length-meaning-le (symlink parent name target) = ground arith
  length-meaning-le (link ino newparent newname) = ground arith

module _ (os : Os) where
  emit-IsSound :
      (before : List Opcode) (r : OpcodeRecorder) (op : Operation)
      → IsSound before r
      → IsClean r.ignore_filters op
      → is_set_ownership op ≡ false
      → r.next_seq + 1 < u64_mod
      → IsSound before (emit os r op)
  unfolding Opcode.new
  emit-IsSound before r op v clean plain small =
      elim (dec_lt (length r.sender.queue) r.sender.capacity) [
        | yes room ↦ rw (emit_room os r op room small) (record {
          numbered =
              subst (Numbered 0 (r.next_seq + 1)) (append_assoc before r.sender.queue (last ∷ []))
                (Numbered-push 0 r.next_seq (before ++ r.sender.queue) last refl v.numbered);
          bounded = omega (arith, length-append r.sender.queue (last ∷ []));
          clean =
              All-append (λ o. IsClean r.ignore_filters o.op) r.sender.queue (last ∷ []) v.clean
                (clean, tt);
          no_ownership =
              All-append (λ o. is_set_ownership o.op ≡ false) r.sender.queue (last ∷ [])
                v.no_ownership (plain, tt);
        })
        | no full ↦ rw (emit_full os r op (omega arith) small) (record {
          bounded = v.bounded;
          clean = v.clean;
          no_ownership = v.no_ownership;
          numbered = Numbered-mono 0 r.next_seq (before ++ r.sender.queue) v.numbered;
        })
      ]
    where
      last : Opcode
      last = Opcode.new (os.clock r.next_seq) r.next_seq op

  emit_all-IsSound :
      (before : List Opcode) (r : OpcodeRecorder) (ops : List Operation)
      → IsSound before r
      → All (λ op. IsClean r.ignore_filters op) ops
      → All (λ op. is_set_ownership op ≡ false) ops
      → r.next_seq + length ops < u64_mod
      → IsSound before (emit_all os r ops)
        × ((emit_all os r ops).next_seq ≡ r.next_seq + length ops)
  unfolding emit_all emit
  emit_all-IsSound before r [] v clean plain small = (v, omega arith)
  emit_all-IsSound before r (op ∷ ops) v clean plain small =
      let (sound, count) =
        emit_all-IsSound before (emit os r op) ops
          (emit-IsSound before r op v clean.0 plain.0 (omega arith)) clean.1 plain.1
          (omega arith) in
      (sound, omega (arith, count))

  -- Every notification keeps the recorder sound, until the counter comes near its range; it uses
  -- at most three numbers.
  pub observe-IsSound :
      (before : List Opcode) (e : Event) (r : OpcodeRecorder)
      → IsSound before r
      → r.next_seq + 3 < u64_mod
      → IsSound before (observe os e r) × ((observe os e r).next_seq ≤ r.next_seq + 3)
  observe-IsSound before e r v small =
      let (sound, count) =
        emit_all-IsSound before r (meaning os r e) v (meaning-IsClean os r e)
          (meaning-no_ownership os r e) (omega (arith, length-meaning-le os r e)) in
      rw (observe-meaning os e r) (sound, omega (arith, count, length-meaning-le os r e))
