-- ===== src/Filesystems/Observing/Laws.antt =====
-- `ObservingFS` is transparent, and its observers hear of exactly the mutations.
use mathlib.Core.List.{foldl}
use ize.Prelude.{◌≡◌, refl, List, [], ◌∷◌, Option, none, some, ap}
use ize.Filesystems.Observer
use ize.Filesystems.Observer.{Event}
use ize.Filesystems.Calls.{Call, Filesystem, write, create, unlink, mkdir, rmdir, rename, setattr}
use ize.Filesystems.Observing.{Clock, ObservingFs, handle, for_each, and_then}

-- The notification that a call is worth: one for each of the seven mutations, none for the rest.
unfoldable pub event_of : Clock → Call → Option Event
event_of clock (write ino fh offset bytes) = some (Observer.write ino fh offset bytes)
event_of clock (create parent name mode umask flags) = some (Observer.create parent name mode none)
event_of clock (unlink parent name) = some (Observer.unlink parent name)
event_of clock (mkdir parent name mode umask) = some (Observer.mkdir parent name mode none)
event_of clock (rmdir parent name) = some (Observer.rmdir parent name)
event_of clock (rename parent name newparent newname flags) =
    some (Observer.rename parent name newparent newname)
event_of clock (setattr ino a) = some (
    Observer.setattr ino a.size a.mode (and_then clock.atime_now a.atime)
      (and_then clock.mtime_now a.mtime))
event_of clock call = none

-- The loop over the observers is the fold: each is told once, in the order of the list.
for_each-foldl :
    {State World : Type 0} (os : List (Event → State → World → World)) (e : Event) (s : State)
    (w : World)
    → for_each os e s w ≡ foldl (λ w observer. observer e s w) w os
unfolding for_each
for_each-foldl [] e s w = refl
for_each-foldl (o ∷ os) e s w = for_each-foldl os e s (o e s w)

-- The inner file system's own run: its last state and its replies.
unfoldable pub run_inner : (F : Filesystem) → List Call → F.State → F.State × List F.Reply
run_inner F [] s = (s, [])
run_inner F (call ∷ calls) s =
    let (s', reply) = F.handle call s in
    let (s'', replies) = run_inner F calls s' in (s'', reply ∷ replies)

module _ {F : Filesystem} {World : Type 0} where
  -- The world once each observer, from the first that was added on, has been told of the event,
  -- with the inner file system as it is then.
  unfoldable pub hear : ObservingFs F World → Option Event → World
  hear fs none = fs.world
  hear fs (some e) = foldl (λ w observer. observer e fs.inner w) fs.world fs.observers

  delegated :
      (call : Call) (fs : ObservingFs F World) {w w' : World}
      → w ≡ w'
      → ◌≡◌ {A = ObservingFs F World × F.Reply}
          (record fs { inner = (F.handle call fs.inner).0; world = w }, (F.handle call fs.inner).1)
          (record fs { inner = (F.handle call fs.inner).0; world = w' }, (F.handle call fs.inner).1)
  delegated call fs same =
      ap
        (λ w.
          (record fs { inner = (F.handle call fs.inner).0; world = w }, (F.handle call fs.inner).1))
        same

  -- A call gives the inner file system's reply and leaves its state; every observer, in the order
  -- in which they were added, has heard of a mutation once, in the state before the call, whether
  -- or not the call succeeds, and no observer has heard of any other call.
  pub handle-event_of :
      (clock : Clock) (call : Call) (fs : ObservingFs F World)
      → handle clock call fs ≡ (
        record fs { inner = (F.handle call fs.inner).0; world = hear fs (event_of clock call) },
        (F.handle call fs.inner).1,
      )
  unfolding handle hear event_of
  handle-event_of clock (write ino fh offset bytes) fs =
      delegated _ fs (for_each-foldl fs.observers _ fs.inner fs.world)
  handle-event_of clock (create parent name mode umask flags) fs =
      delegated _ fs (for_each-foldl fs.observers _ fs.inner fs.world)
  handle-event_of clock (unlink parent name) fs =
      delegated _ fs (for_each-foldl fs.observers _ fs.inner fs.world)
  handle-event_of clock (mkdir parent name mode umask) fs =
      delegated _ fs (for_each-foldl fs.observers _ fs.inner fs.world)
  handle-event_of clock (rmdir parent name) fs =
      delegated _ fs (for_each-foldl fs.observers _ fs.inner fs.world)
  handle-event_of clock (rename parent name newparent newname flags) fs =
      delegated _ fs (for_each-foldl fs.observers _ fs.inner fs.world)
  handle-event_of clock (setattr ino a) fs =
      delegated _ fs (for_each-foldl fs.observers _ fs.inner fs.world)
  handle-event_of clock call fs = refl

  -- The replies to a sequence of calls, and the state that it leaves.
  unfoldable pub run : Clock → List Call → ObservingFs F World → ObservingFs F World × List F.Reply
  run clock [] fs = (fs, [])
  run clock (call ∷ calls) fs =
      let (fs', reply) = handle clock call fs in
      let (fs'', replies) = run clock calls fs' in (fs'', reply ∷ replies)

  -- Observation is transparent: over any calls, the replies and the inner state are those of the
  -- inner file system alone, whatever the observers are.
  pub run_transparent :
      (clock : Clock) (calls : List Call) (fs : ObservingFs F World)
      → ((run clock calls fs).0.inner ≡ (run_inner F calls fs.inner).0)
        × ((run clock calls fs).1 ≡ (run_inner F calls fs.inner).1)
  unfolding run run_inner
  run_transparent clock [] fs = (refl, refl)
  run_transparent clock (call ∷ calls) fs = rw (handle-event_of clock call fs) (
      let (state, replies) =
        run_transparent clock calls (record fs {
          inner = (F.handle call fs.inner).0;
          world = hear fs (event_of clock call);
        }) in
      (state, ap (λ l. (F.handle call fs.inner).1 ∷ l) replies))
