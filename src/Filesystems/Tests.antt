-- ===== src/Filesystems/Tests.antt =====
-- A file system that counts calls, and an observer that collects notifications.
use ize.Prelude.{ℕ, ◌+◌, ◌≡◌, List, [], ◌∷◌, ◌++◌, none}
use ize.Filesystems.Observer
use ize.Filesystems.Observer.{Event}
use ize.Filesystems.Calls.{Call, Filesystem, unlink, getattr, mkdir}
use ize.Filesystems.Observing.{Clock, FsObserver, ObservingFs, handle}
use ize.Filesystems.Observing.Laws.{
  event_of, hear, run, run_inner, handle-event_of, run_transparent,
}
use ize.Operations.Opcode.{since_epoch}

abbrev counting : Filesystem
counting = record { State = ℕ; Reply = ℕ; handle = λ call n. (n + 1, n) }

abbrev collect : FsObserver counting (List Event)
collect e n heard = heard ++ (e ∷ [])

-- A second observer, which makes a copy of what the first has left.
abbrev double : FsObserver counting (List Event)
double e n heard = heard ++ heard

abbrev noon : Clock
noon = record { atime_now = since_epoch 12; mtime_now = since_epoch 12 }

abbrev observed : ObservingFs counting (List Event)
observed = record { inner = 5; observers = collect ∷ double ∷ []; world = [] }

handle-event_of_example :
    handle noon (unlink 1 "a") observed
    ≡ (record observed { inner = 6; world = Observer.unlink 1 "a" ∷ Observer.unlink 1 "a" ∷ [] }, 5)
unfolding hear event_of
handle-event_of_example =
    handle-event_of {F = counting} {World = List Event} noon (unlink 1 "a") observed

abbrev calls : List Call
calls = mkdir 1 "d" 0o755 0 ∷ getattr 1 none ∷ unlink 1 "a" ∷ []

run_transparent_example :
    ((run noon calls observed).0.inner ≡ (run_inner counting calls 5).0)
    × ((run noon calls observed).1 ≡ (run_inner counting calls 5).1)
run_transparent_example = run_transparent {F = counting} {World = List Event} noon calls observed
