-- ===== src/Commands/Session.antt =====
-- crates/ize/src/main.rs, the mount command once the file system is mounted: the thread that serves
-- the kernel's calls and the thread that records opcodes, which share the queue. A call is served
-- from end to end, and so is a turn of the consumer's loop; a schedule is the order in which they
-- come.
pub mod Laws
use ize.Prelude.{ℕ, zero, suc, List, [], ◌∷◌, Option, String}
use ize.FilePath.{FilePath}
use ize.Filesystems.Calls.{Call, Filesystem}
use ize.Filesystems.Observing
use ize.Filesystems.Observing.{Clock, ObservingFs}
use ize.Operations.Recorder.{OpcodeRecorder}
use ize.Pijul.Operations.{PijulBackend}
use ize.Commands.{turn}

-- The kernel makes a call, or the loop makes a turn.
pub data SessionStep : Type 0 where
  serve : Call → SessionStep
  poll : SessionStep

-- The calls of a schedule.
unfoldable pub calls_of : List SessionStep → List Call
calls_of [] = []
calls_of (serve call ∷ steps) = call ∷ calls_of steps
calls_of (poll ∷ steps) = calls_of steps

unfoldable pub polls : ℕ → List SessionStep
polls zero = []
polls (suc n) = poll ∷ polls n

module _ (F : Filesystem) (clock : Clock) (to_str : FilePath → Option String)
    (B : PijulBackend) where
  -- The recorder has the sending end of the queue, and the consumer takes from it.
  pub record Session : Type 0 where
    pub fs : ObservingFs F OpcodeRecorder
    pub repository : B.State

  unfoldable pub step : SessionStep → Session → Session
  unfolding Observing.handle turn
  step (serve call) s = record s { fs = (Observing.handle clock call s.fs).0 }
  step poll s =
      let k = turn to_str B (record { queue = s.fs.world.sender; repository = s.repository }) in
      record {
        fs = record (s.fs) { world = record (s.fs.world) { sender = k.queue } };
        repository = k.repository;
      }

  unfoldable pub run_session : List SessionStep → Session → Session
  unfolding step
  run_session [] s = s
  run_session (e ∷ steps) s = run_session steps (step e s)
