-- ===== src/Operations/Tests.antt =====
-- A recorder, its queue and its operations at work on concrete values.
use ize.Prelude.{
  ℕ, ◌+◌, ◌*◌, ◌≡◌, ◌≢◌, refl, List, [], ◌∷◌, ◌++◌, none, some, pos, arith, length, Dict,
}
use ize.FilePath.{FilePath}
use ize.Filesystems.Observer.{Event, write, setattr}
use ize.Operations.Opcode.{Opcode, since_epoch}
use ize.Operations.Operation.{file_write, file_delete}
use ize.Operations.Queue.{OpcodeQueue, push, try_pop, empty?}
use ize.Operations.Queue.Threads.{
  System, start, pushes, notifies, notifies_nobody, enters, sleeps, takes, Reach, begin, next,
}
use ize.Operations.Queue.Laws.{fifo_order, no_lost_wakeup}
use ize.Operations.Recorder.{Os, OpcodeRecorder, symbolic_link, observe, resolve_inode, is_ignored}
use ize.Operations.Recorder.Meaning.{meaning}
use ize.Operations.Recorder.Laws.{observe_sends, sent}
use ize.Operations.Recorder.Invariant.{IsSound}
use ize.Operations.Recorder.Session
use ize.Operations.Recorder.Session.{Session, Act, open_session, run, session-IsSound}
use ize.Vcs.{git_backend}

abbrev a_txt : FilePath
a_txt = "docs" ∷ "a.txt" ∷ []

abbrev b_txt : FilePath
b_txt = "docs" ∷ "b.txt" ∷ []

abbrev first : Opcode
first = record { seq = 1; timestamp = 100; op = file_write a_txt 0 (104 ∷ 105 ∷ []) }

abbrev second : Opcode
second = record { seq = 2; timestamp = 200; op = file_delete b_txt }

abbrev one_of_two : OpcodeQueue
one_of_two = record { queue = first ∷ []; capacity = 2 }

abbrev empty_queue : OpcodeQueue
empty_queue = record { queue = []; capacity = 2 }

-- A consumer waits, is woken by the first push and takes it; then the second push wakes nobody.
abbrev consumed : System
consumed = record {
  shared = record { queue = second ∷ []; capacity = 2 };
  pending = 0;
  ready = 0;
  waiting = 0;
  sent = first ∷ second ∷ [];
  taken = first ∷ [];
}

consumed_reached : Reach empty_queue consumed
unfolding start push try_pop empty?
consumed_reached =
    next
      (next
        (next
          (next (next (next (next begin enters) (sleeps 0 refl refl)) (pushes first))
            (notifies 0 0 refl refl))
          (takes 0 first empty_queue refl refl))
        (pushes second))
      (notifies_nobody 0 refl refl)

fifo_order_example : (first ∷ []) ++ (second ∷ []) ≡ first ∷ second ∷ []
fifo_order_example = fifo_order consumed_reached

consumed_full : second ∷ [] ≢ []
consumed_full h = cc

no_lost_wakeup_example : consumed.waiting ≡ 0
no_lost_wakeup_example = no_lost_wakeup consumed_reached consumed_full refl refl

abbrev inodes : Dict FilePath
inodes = (1, []) ∷ (2, "docs" ∷ []) ∷ (3, a_txt) ∷ []

abbrev linux : Os
linux = record {
  metadata = λ p. none;
  symlink_metadata = λ p. some symbolic_link;
  clock = λ n. since_epoch (n * 1_000);
}

abbrev recording : ℕ → OpcodeRecorder
recording capacity = record {
  inode_map = inodes;
  source_dir = "home" ∷ "work" ∷ [];
  next_seq = 7;
  sender = record { queue = first ∷ []; capacity = capacity };
  ignore_filters = git_backend ∷ [];
}

abbrev resized : Event
resized = setattr 3 (some 10) (some 0o600) none (some (since_epoch 5_000_000_000))

-- Of three operations the queue takes the first two.
observe_sends_example : observe linux resized (recording 3) ≡ record (recording 3) {
  next_seq = 7 + length (meaning linux (recording 3) resized);
  sender = record {
    queue = (first ∷ []) ++ sent linux (recording 3) (meaning linux (recording 3) resized);
    capacity = 3;
  };
}
unfolding meaning resolve_inode is_ignored git_backend ize.Prelude.lookup
observe_sends_example = observe_sends linux resized (recording 3) (omega arith)

abbrev acts : List Act
acts =
    Session.notifies linux resized
    ∷ Session.takes
    ∷ Session.notifies linux (write 3 0 (pos 0) (104 ∷ []))
    ∷ []

session-IsSound_example :
    let s = run (open_session inodes [] 2 (git_backend ∷ [])) acts in IsSound s.taken s.recorder
session-IsSound_example = session-IsSound inodes [] 2 (git_backend ∷ []) acts (omega arith)
