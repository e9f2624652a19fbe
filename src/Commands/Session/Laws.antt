-- ===== src/Commands/Session/Laws.antt =====
-- What a mounted session has recorded, whatever the order of the calls and the turns.
use mathlib.Core.Path.{subst}
use ize.Prelude.{
  ℕ, zero, suc, ◌≤◌, ◌≡◌, refl, sym, ap, ◌∙◌, List, [], ◌∷◌, ◌++◌, append-nil, Dict, Option, String,
  arith, length, length-append,
}
use ize.FilePath.{FilePath}
use ize.Filesystems.Calls.{Filesystem}
use ize.Filesystems.Observing.{Clock}
use ize.Filesystems.Recording.{
  recorded, after, Fits, Fits-cons, handle_records, expected, expected-after, trace,
}
use ize.Filesystems.Observing.Laws.{event_of}
use ize.Operations.Opcode.{Opcode, SystemTime}
use ize.Operations.Queue.{try_pop}
use ize.Operations.Recorder.{Kinds, OpcodeRecorder}
use ize.Operations.Recorder.Laws.{number}
use ize.Pijul.Operations.{PijulBackend, apply_opcode}
use ize.Pijul.Operations.Calls.{make_all, calls_for}
use ize.Commands.{turn}
use ize.Commands.Laws.{apply_all, apply_all-make_all}
use ize.Commands.Session.{SessionStep, serve, poll, calls_of, polls, Session, step, run_session}

module _ (F : Filesystem) (inode_map : F.State → Dict FilePath) (kinds : F.State → Kinds)
    (time : ℕ → SystemTime) (clock : Clock) (to_str : FilePath → Option String)
    (B : PijulBackend) where
  abbrev pub Mounted : Type 0
  Mounted = Session F clock to_str B

  -- The session with the recorder on the file system.
  abbrev pub mounted : F.State → OpcodeRecorder → B.State → Mounted
  mounted fs r s = record { fs = recorded F inode_map kinds time clock fs r; repository = s }

  abbrev with_queue : OpcodeRecorder → List Opcode → OpcodeRecorder
  with_queue r q = record r { sender = record (r.sender) { queue = q } }

  -- The opcodes `done` are in the repository, and with those in the queue they are `all`.
  unfoldable pub Recorded : List Opcode → B.State → Mounted → Type 0
  Recorded all s m =
      (done : List Opcode) × (m.repository ≡ apply_all to_str B done s)
      × (done ++ m.fs.world.sender.queue ≡ all)

  Recorded-poll :
      (o : Opcode) (all : List Opcode) (s : B.State) (m : Mounted)
      → Recorded all (apply_opcode to_str B o s).0 m
      → Recorded (o ∷ all) s m
  unfolding Recorded apply_all
  Recorded-poll o all s m (done, same, rest) = (o ∷ done, same, ap (λ l. o ∷ l) rest)

  -- The statement for a schedule, from any state of the two threads.
  abbrev Records : List SessionStep → Type 0
  Records steps =
      (fs : F.State) (r : OpcodeRecorder) (s : B.State)
      → Fits F inode_map kinds time clock (calls_of steps) fs r
      → Recorded (expected F inode_map kinds time clock (calls_of steps) fs r) s
          (run_session F clock to_str B steps (mounted fs r s))

  poll_records :
      (steps : List SessionStep) (q : List Opcode) (fs : F.State) (r : OpcodeRecorder) (s : B.State)
      → Records steps
      → Fits F inode_map kinds time clock (calls_of steps) fs (with_queue r q)
      → Recorded
          (expected F inode_map kinds time clock (calls_of steps) fs (with_queue r q))
          s
          (run_session F clock to_str B (poll ∷ steps) (mounted fs (with_queue r q) s))
  unfolding run_session step turn try_pop
  poll_records steps [] fs r s ih fits = ih fs (with_queue r []) s fits
  poll_records steps (o ∷ q) fs r s ih fits =
      Recorded-poll o _ s _
        (ih fs (with_queue r q) (apply_opcode to_str B o s).0 (omega arith, fits.1))

  run_session-Recorded :
      (steps : List SessionStep) (fs : F.State) (r : OpcodeRecorder) (s : B.State)
      → Fits F inode_map kinds time clock (calls_of steps) fs r
      → Recorded
          (expected F inode_map kinds time clock (calls_of steps) fs r)
          s
          (run_session F clock to_str B steps (mounted fs r s))
  unfolding run_session step calls_of Recorded apply_all trace number
  run_session-Recorded [] fs r s fits = ([], refl, sym (append-nil r.sender.queue))
  run_session-Recorded (poll ∷ steps) fs r s fits =
      poll_records steps r.sender.queue fs r s (run_session-Recorded steps) fits
  run_session-Recorded (serve call ∷ steps) fs r s fits =
      let (now, later) = Fits-cons F inode_map kinds time clock call (calls_of steps) fs r fits in
      let r' = after F inode_map kinds time clock fs r (event_of clock call) in
      subst
        (λ fs'.
          Recorded (expected F inode_map kinds time clock (call ∷ calls_of steps) fs r) s
            (run_session F clock to_str B steps (record { fs = fs'; repository = s })))
        (sym (handle_records F inode_map kinds time clock call fs r now))
        (subst
          (λ all.
            Recorded all s (run_session F clock to_str B steps (mounted (F.handle call fs).0 r' s)))
          (expected-after F inode_map kinds time clock call (calls_of steps) fs r)
          (run_session-Recorded steps (F.handle call fs).0 r' s later))

  -- The opcodes `done` have been taken from the queue, and the repository is what the calls that
  -- they are worth have made of it, in their order; with those in the queue they are `all`.
  unfoldable pub Handed : List Opcode → B.State → Mounted → Type 0
  Handed all s m =
      (done : List Opcode) × (m.repository ≡ make_all B (calls_for to_str done) s)
      × (done ++ m.fs.world.sender.queue ≡ all)

  -- Whatever the order of the calls and the turns, with room in the queue for all that the calls
  -- stand for and while the counter does not wrap around: at every moment a first part of what was
  -- in the queue and of what the calls stand for has been taken, and the rest is in the queue. Each
  -- opcode that was taken has been handed to the repository, in order, by the one record call that
  -- its operation is worth; those worth none, which are of directories, of metadata and of links or
  -- have a path that is not UTF-8, are gone without a trace in it.
  pub run_session-Handed :
      (steps : List SessionStep) (fs : F.State) (r : OpcodeRecorder) (s : B.State)
      → Fits F inode_map kinds time clock (calls_of steps) fs r
      → Handed
          (expected F inode_map kinds time clock (calls_of steps) fs r)
          s
          (run_session F clock to_str B steps (mounted fs r s))
  unfolding Recorded Handed
  run_session-Handed steps fs r s fits =
      let (done, same, rest) = run_session-Recorded steps fs r s fits in
      (done, same ∙ apply_all-make_all to_str B done s, rest)

  run_session-append :
      (xs ys : List SessionStep) (m : Mounted)
      → run_session F clock to_str B (xs ++ ys) m
        ≡ run_session F clock to_str B ys (run_session F clock to_str B xs m)
  unfolding run_session
  run_session-append [] ys m = refl
  run_session-append (x ∷ xs) ys m = run_session-append xs ys (step F clock to_str B x m)

  apply_all-append :
      (xs ys : List Opcode) (s : B.State)
      → apply_all to_str B (xs ++ ys) s ≡ apply_all to_str B ys (apply_all to_str B xs s)
  unfolding apply_all
  apply_all-append [] ys s = refl
  apply_all-append (x ∷ xs) ys s = apply_all-append xs ys (apply_opcode to_str B x s).0

  abbrev holding : Mounted → List Opcode → Mounted
  holding m q = record m {
    fs = record (m.fs) {
      world = record (m.fs.world) { sender = record (m.fs.world.sender) { queue = q } };
    };
  }

  -- Turns alone record what is in the queue.
  polls_record :
      (n : ℕ) (q : List Opcode) (m : Mounted)
      → length q ≤ n
      → (run_session F clock to_str B (polls n) (holding m q)).repository
        ≡ apply_all to_str B q m.repository
  unfolding run_session step turn try_pop polls apply_all
  polls_record zero [] m enough = refl
  polls_record zero (o ∷ q) m enough = absurd (omega arith)
  polls_record (suc n) [] m enough = polls_record n [] m (omega arith)
  polls_record (suc n) (o ∷ q) m enough =
      polls_record n q (record m { repository = (apply_opcode to_str B o m.repository).0 })
        (omega arith)

  -- Under the same conditions, a schedule that ends in as many turns of the loop as there were
  -- opcodes records all that was in the queue and all that the calls stand for, in that order.
  pub run_session-drained :
      (steps : List SessionStep) (n : ℕ) (fs : F.State) (r : OpcodeRecorder) (s : B.State)
      → Fits F inode_map kinds time clock (calls_of steps) fs r
      → length (expected F inode_map kinds time clock (calls_of steps) fs r) ≤ n
      → (run_session F clock to_str B (steps ++ polls n) (mounted fs r s)).repository
        ≡ apply_all to_str B (expected F inode_map kinds time clock (calls_of steps) fs r) s
  unfolding Recorded
  run_session-drained steps n fs r s fits enough =
      let m = run_session F clock to_str B steps (mounted fs r s) in
      let (done, same, rest) = run_session-Recorded steps fs r s fits in
      let q = m.fs.world.sender.queue in
      ap (λ k. k.repository) (run_session-append steps (polls n) (mounted fs r s))
      ∙ polls_record n q m (omega (arith, ap length rest, length-append done q))
      ∙ ap (apply_all to_str B q) same
      ∙ sym (apply_all-append done q s)
      ∙ ap (λ all. apply_all to_str B all s) rest
