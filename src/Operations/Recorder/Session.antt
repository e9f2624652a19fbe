-- ===== src/Operations/Recorder/Session.antt =====
-- A recorder at work: the file system notifies it, and a consumer takes opcodes from the queue,
-- in any order of these steps. Each notification comes with what the system shows at its moment.
use ize.Prelude.{
  ℕ, ◌+◌, ◌*◌, ◌<◌, sym, List, [], ◌∷◌, ◌++◌, Option, none, some, arith, length, append_assoc, Dict,
}
use mathlib.Core.Path.{subst}
use ize.FilePath.{FilePath}
use ize.Filesystems.Observer.{Event}
use ize.Operations.Opcode.{Opcode, u64_mod}
use ize.Operations.Queue
use ize.Operations.Queue.{pop_front}
use ize.Operations.Recorder.{Os, OpcodeRecorder, new, with_ignore_filters, observe}
use ize.Operations.Recorder.Invariant.{IsSound, Numbered, observe-IsSound}
use ize.Vcs.{IgnoreFilter}

pub data Act : Type 0 where
  notifies : Os → Event → Act
  takes : Act

pub record Session : Type 0 where
  pub recorder : OpcodeRecorder
  pub taken : List Opcode

abbrev keep : List Opcode → Option Opcode → List Opcode
keep taken none = taken
keep taken (some o) = taken ++ (o ∷ [])

unfoldable pub take_opcode : Session → Session
take_opcode s =
    let (sender, result) = Queue.try_pop s.recorder.sender in
    record { recorder = record (s.recorder) { sender = sender }; taken = keep s.taken result }

unfoldable pub step : Session → Act → Session
step s (notifies os e) = record s { recorder = observe os e s.recorder }
step s takes = take_opcode s

unfoldable pub run : Session → List Act → Session
run s [] = s
run s (a ∷ acts) = run (step s a) acts

-- A new recorder on a new queue of the given capacity.
unfoldable pub open_session : Dict FilePath → FilePath → ℕ → List IgnoreFilter → Session
open_session inode_map source_dir capacity filters = record {
  recorder = with_ignore_filters (new inode_map source_dir (Queue.with_capacity capacity)) filters;
  taken = [];
}

open_session-IsSound :
    (m : Dict FilePath) (d : FilePath) (k : ℕ) (fs : List IgnoreFilter)
    → IsSound [] (open_session m d k fs).recorder
unfolding open_session new with_ignore_filters Queue.with_capacity
open_session-IsSound m d k fs = record {
  numbered = omega arith;
  bounded = omega arith;
  clean = tt;
  no_ownership = tt;
}

pop_front-IsSound :
    (before : List Opcode) (q : List Opcode) (k : ℕ) (r : OpcodeRecorder)
    → IsSound before (record r { sender = record { queue = q; capacity = k } })
    → IsSound (keep before (pop_front q k).1) (record r { sender = (pop_front q k).0 })
pop_front-IsSound before [] k r v = v
pop_front-IsSound before (o ∷ q) k r v = record {
  numbered = subst (Numbered 0 r.next_seq) (sym (append_assoc before (o ∷ []) q)) v.numbered;
  bounded = omega (arith, v.bounded);
  clean = v.clean.1;
  no_ownership = v.no_ownership.1;
}

take_opcode-IsSound :
    (s : Session)
    → IsSound s.taken s.recorder
    → IsSound (take_opcode s).taken (take_opcode s).recorder
unfolding take_opcode Queue.try_pop
take_opcode-IsSound s v =
    pop_front-IsSound s.taken s.recorder.sender.queue s.recorder.sender.capacity s.recorder v

run-IsSound :
    (s : Session) (acts : List Act)
    → IsSound s.taken s.recorder
    → s.recorder.next_seq + 3 * length acts < u64_mod
    → IsSound (run s acts).taken (run s acts).recorder
unfolding run step take_opcode
run-IsSound s [] v small = v
run-IsSound s (notifies os e ∷ acts) v small =
    let (sound, count) = observe-IsSound os s.taken e s.recorder v (omega arith) in
    run-IsSound _ acts sound (omega (arith, count))
run-IsSound s (takes ∷ acts) v small =
    run-IsSound (take_opcode s) acts (take_opcode-IsSound s v) (omega arith)

-- From the start of a recorder on, after any notifications and takes that are too few for the
-- counter to wrap around: the numbers of the opcodes taken and then queued rise strictly and lie
-- below the counter; the queue is within its capacity; no queued opcode names a path that a filter
-- ignores, nor changes an ownership.
pub session-IsSound :
    (m : Dict FilePath) (d : FilePath) (k : ℕ) (fs : List IgnoreFilter) (acts : List Act)
    → 1 + 3 * length acts < u64_mod
    → let s = run (open_session m d k fs) acts in IsSound s.taken s.recorder
unfolding open_session new with_ignore_filters
session-IsSound m d k fs acts small =
    run-IsSound (open_session m d k fs) acts (open_session-IsSound m d k fs) small
