-- ===== src/Filesystems/Recording.antt =====
-- The recorder on `ObservingFS` over a file system whose inode map it shares (`inode_map`): what a
-- run of calls leaves in the queue.
use mathlib.Core.Path.{subst}
use ize.Prelude.{
  Dict, ◌+◌, ◌≤◌, ◌<◌, ◌≡◌, refl, sym, ap, ◌∙◌, List, [], ◌∷◌, ◌++◌, append-nil, append_assoc,
  Option, some, none, arith, length, length-append, ℕ,
}
use ize.FilePath.{FilePath}
use ize.Vcs.{IgnoreFilter}
use ize.Filesystems.Calls.{Call, Filesystem}
use ize.Filesystems.Observer.{
  Event, write, create, unlink, mkdir, rmdir, rename, setattr, symlink, link,
}
use ize.Filesystems.Observing.{Clock, FsObserver, ObservingFs}
use ize.Filesystems.Observing.Laws.{event_of, hear, run, handle-event_of}
use ize.Filesystems.Observing
use ize.Operations.Opcode.{Opcode, u64_mod, SystemTime}
use ize.Operations.Operation.{Operation}
use ize.Operations.Recorder.{
  Os, Kinds, seen, OpcodeRecorder, observe, resolve_inode, resolve_with_name, is_ignored, to_real,
}
use ize.Operations.Recorder.Meaning.{meaning}
use ize.Operations.Recorder.Laws.{number, number-append, length-number, observe_room}

-- The recorder's view: the file system's inode map with its own directory and filters.
abbrev pub scope : Dict FilePath → FilePath → List IgnoreFilter → OpcodeRecorder
scope m source_dir filters = record {
  inode_map = m;
  source_dir = source_dir;
  next_seq = 0;
  sender = record { queue = []; capacity = 0 };
  ignore_filters = filters;
}

abbrev pub sharing : Dict FilePath → OpcodeRecorder → OpcodeRecorder
sharing m r = record r { inode_map = m }

pub meaning-scope :
    (os : Os) (m : Dict FilePath) (r : OpcodeRecorder) (e : Event)
    → meaning os (sharing m r) e ≡ meaning os (scope m r.source_dir r.ignore_filters) e
unfolding meaning resolve_inode resolve_with_name is_ignored to_real
meaning-scope os m r (write ino fh offset bytes) = refl
meaning-scope os m r (create parent name mode result_ino) = refl
meaning-scope os m r (unlink parent name) = refl
meaning-scope os m r (mkdir parent name mode result_ino) = refl
meaning-scope os m r (rmdir parent name) = refl
meaning-scope os m r (rename parent name newparent newname) = refl
meaning-scope os m r (setattr ino size mode atime mtime) = refl
meaning-scope os m r (symlink parent name target) = refl
meaning-scope os m r (link ino newparent newname) = refl

module _ (F : Filesystem) (inode_map : F.State → Dict FilePath) (kinds : F.State → Kinds)
    (time : ℕ → SystemTime) (clock : Clock) where
  -- What the recorder asks, at the moment of the file system's state.
  abbrev pub os_at : F.State → Os
  os_at fs = seen (kinds fs) time

  abbrev pub recording : FsObserver F OpcodeRecorder
  recording e fs r = observe (os_at fs) e (sharing (inode_map fs) r)

  abbrev pub recorded : F.State → OpcodeRecorder → ObservingFs F OpcodeRecorder
  recorded fs r = record { inner = fs; observers = recording ∷ []; world = r }

  abbrev pub operations_of : F.State → FilePath → List IgnoreFilter → Option Event → List Operation
  operations_of fs source_dir filters none = []
  operations_of fs source_dir filters (some e) =
      meaning (os_at fs) (scope (inode_map fs) source_dir filters) e

  -- The recorder once the operations are in the queue.
  abbrev filled : F.State → OpcodeRecorder → List Operation → OpcodeRecorder
  filled fs r ops = record (sharing (inode_map fs) r) {
    next_seq = r.next_seq + length ops;
    sender = record (r.sender) { queue = r.sender.queue ++ number time r.next_seq ops };
  }

  observe-scope :
      (fs : F.State) (r : OpcodeRecorder) (e : Event)
      → length r.sender.queue
          + length (meaning (os_at fs) (scope (inode_map fs) r.source_dir r.ignore_filters) e)
        ≤ r.sender.capacity
      → r.next_seq
          + length (meaning (os_at fs) (scope (inode_map fs) r.source_dir r.ignore_filters) e)
        < u64_mod
      → observe (os_at fs) e (sharing (inode_map fs) r)
        ≡ filled fs r (meaning (os_at fs) (scope (inode_map fs) r.source_dir r.ignore_filters) e)
  observe-scope fs r e =
      subst
        (λ ops.
          length r.sender.queue + length ops ≤ r.sender.capacity
          → r.next_seq + length ops < u64_mod
          → observe (os_at fs) e (sharing (inode_map fs) r) ≡ filled fs r ops)
        (meaning-scope (os_at fs) (inode_map fs) r e)
        (observe_room (os_at fs) e (sharing (inode_map fs) r))

  handled_silently :
      (call : Call) (fs : F.State) (r : OpcodeRecorder)
      → event_of clock call ≡ none
      → (Observing.handle clock call (recorded fs r)).0 ≡ recorded (F.handle call fs).0 r
  unfolding hear
  handled_silently call fs r silent =
      ap (λ p. p.0) (handle-event_of {F = F} clock call (recorded fs r)) ∙ rw silent refl

  handled_observed :
      (call : Call) (fs : F.State) (r : OpcodeRecorder) (e : Event)
      → event_of clock call ≡ some e
      → (Observing.handle clock call (recorded fs r)).0
        ≡ recorded (F.handle call fs).0 (observe (os_at fs) e (sharing (inode_map fs) r))
  unfolding hear
  handled_observed call fs r e heard =
      ap (λ p. p.0) (handle-event_of {F = F} clock call (recorded fs r)) ∙ rw heard refl

  -- The operations that the calls stand for, each found with the inode map at that moment.
  unfoldable pub trace : List Call → F.State → FilePath → List IgnoreFilter → List Operation
  trace [] fs source_dir filters = []
  trace (call ∷ calls) fs source_dir filters =
      operations_of fs source_dir filters (event_of clock call)
      ++ trace calls (F.handle call fs).0 source_dir filters

  -- The recorder after a call, if there was room.
  unfoldable pub after : F.State → OpcodeRecorder → Option Event → OpcodeRecorder
  after fs r none = r
  after fs r (some e) =
      filled fs r (meaning (os_at fs) (scope (inode_map fs) r.source_dir r.ignore_filters) e)

  -- The operations of one call.
  abbrev pub call_operations : Call → F.State → OpcodeRecorder → List Operation
  call_operations call fs r = operations_of fs r.source_dir r.ignore_filters (event_of clock call)

  abbrev HasRoom : List Operation → OpcodeRecorder → Type 0
  HasRoom ops r =
      (length r.sender.queue + length ops ≤ r.sender.capacity) × (r.next_seq + length ops < u64_mod)

  event_records :
      (call : Call) (fs : F.State) (r : OpcodeRecorder) (event : Option Event)
      → event_of clock call ≡ event
      → HasRoom (operations_of fs r.source_dir r.ignore_filters event) r
      → (Observing.handle clock call (recorded fs r)).0
        ≡ recorded (F.handle call fs).0 (after fs r event)
  unfolding after
  event_records call fs r none silent room = handled_silently call fs r silent
  event_records call fs r (some e) heard room =
      handled_observed call fs r e heard
      ∙ ap (recorded (F.handle call fs).0) (observe-scope fs r e room.0 room.1)

  pub handle_records :
      (call : Call) (fs : F.State) (r : OpcodeRecorder)
      → HasRoom (call_operations call fs r) r
      → (Observing.handle clock call (recorded fs r)).0
        ≡ recorded (F.handle call fs).0 (after fs r (event_of clock call))
  handle_records call fs r room = event_records call fs r (event_of clock call) refl room

  -- The queue once all the calls are recorded.
  abbrev pub expected : List Call → F.State → OpcodeRecorder → List Opcode
  expected calls fs r =
      r.sender.queue ++ number time r.next_seq (trace calls fs r.source_dir r.ignore_filters)

  event_queue :
      (calls : List Call) (fs fs' : F.State) (r : OpcodeRecorder) (event : Option Event)
      → expected calls fs' (after fs r event)
        ≡ r.sender.queue
          ++ number time r.next_seq (
              operations_of fs r.source_dir r.ignore_filters event
              ++ trace calls fs' r.source_dir r.ignore_filters)
  unfolding after
  event_queue calls fs fs' r none = refl
  event_queue calls fs fs' r (some e) =
      let ops = meaning (os_at fs) (scope (inode_map fs) r.source_dir r.ignore_filters) e in
      let rest = trace calls fs' r.source_dir r.ignore_filters in
      append_assoc r.sender.queue (number time r.next_seq ops)
        (number time (r.next_seq + length ops) rest)
      ∙ ap (λ l. r.sender.queue ++ l) (sym (number-append time r.next_seq ops rest))

  pub expected-after :
      (call : Call) (calls : List Call) (fs : F.State) (r : OpcodeRecorder)
      → expected calls (F.handle call fs).0 (after fs r (event_of clock call))
        ≡ expected (call ∷ calls) fs r
  unfolding trace
  expected-after call calls fs r = event_queue calls fs (F.handle call fs).0 r (event_of clock call)

  -- Room for what a list of calls records.
  abbrev pub Fits : List Call → F.State → OpcodeRecorder → Type 0
  Fits calls fs r = HasRoom (trace calls fs r.source_dir r.ignore_filters) r

  event_room :
      (calls : List Call) (fs fs' : F.State) (r : OpcodeRecorder) (event : Option Event)
      → HasRoom
          (operations_of fs r.source_dir r.ignore_filters event
            ++ trace calls fs' r.source_dir r.ignore_filters)
          r
      → HasRoom (operations_of fs r.source_dir r.ignore_filters event) r
        × Fits calls fs' (after fs r event)
  unfolding after
  event_room calls fs fs' r none (room, small) = ((omega arith, omega arith), (room, small))
  event_room calls fs fs' r (some e) (room, small) =
      let ops = meaning (os_at fs) (scope (inode_map fs) r.source_dir r.ignore_filters) e in
      let rest = trace calls fs' r.source_dir r.ignore_filters in
      let count = length-append ops rest in
      let queued = length-append r.sender.queue (number time r.next_seq ops) in
      let numbered = length-number time r.next_seq ops in
      (
        (omega (arith, count), omega (arith, count)),
        (omega (arith, count, queued, numbered), omega (arith, count)),
      )

  pub Fits-cons :
      (call : Call) (calls : List Call) (fs : F.State) (r : OpcodeRecorder)
      → Fits (call ∷ calls) fs r
      → HasRoom (call_operations call fs r) r
        × Fits calls (F.handle call fs).0 (after fs r (event_of clock call))
  unfolding trace
  Fits-cons call calls fs r = event_room calls fs (F.handle call fs).0 r (event_of clock call)

  abbrev queue_after : List Call → ObservingFs F OpcodeRecorder → List Opcode
  queue_after calls fs = (run {F = F} {World = OpcodeRecorder} clock calls fs).0.world.sender.queue

  -- With room in the queue, and while the counter does not wrap around, a run of calls appends an
  -- opcode for each operation that the calls stand for, in the order of the calls and with
  -- consecutive numbers, and nothing else to the queue.
  run_records :
      (calls : List Call) (fs : F.State) (r : OpcodeRecorder)
      → length r.sender.queue + length (trace calls fs r.source_dir r.ignore_filters)
        ≤ r.sender.capacity
      → r.next_seq + length (trace calls fs r.source_dir r.ignore_filters) < u64_mod
      → (run clock calls (recorded fs r)).0.world.sender.queue
        ≡ r.sender.queue ++ number time r.next_seq (trace calls fs r.source_dir r.ignore_filters)
  unfolding run trace number
  run_records [] fs r room small = sym (append-nil r.sender.queue)
  run_records (call ∷ calls) fs r room small =
      let (now, later) = Fits-cons call calls fs r (room, small) in
      let r' = after fs r (event_of clock call) in
      ap (queue_after calls) (handle_records call fs r now)
      ∙ run_records calls (F.handle call fs).0 r' later.0 later.1
      ∙ expected-after call calls fs r
