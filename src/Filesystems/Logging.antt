-- ===== src/Filesystems/Logging.antt =====
-- The dump observer on `ObservingFS` over a file system whose inode map it shares: what a run of
-- calls leaves in the log.
use ize.Prelude.{
  ◌≡◌, refl, sym, ap, ◌∙◌, Bool, List, [], ◌∷◌, ◌++◌, append-nil, append_assoc, Dict, Option, some,
  none, arith, ℕ,
}
use ize.Operations.Opcode.{SystemTime}
use ize.FilePath.{FilePath}
use ize.Filesystems.Calls.{Call, Filesystem}
use ize.Filesystems.Observer.{
  Event, write, create, unlink, mkdir, rmdir, rename, setattr, symlink, link,
}
use ize.Filesystems.Observing.{Clock, FsObserver, ObservingFs}
use ize.Filesystems.Observing.Laws.{event_of, hear, run, handle-event_of}
use ize.Filesystems.Observing
use ize.Filesystems.Recording.{trace, operations_of, meaning-scope}
use ize.Operations.Operation.{Bytes, Operation}
use ize.Operations.Recorder.{Os, Kinds, seen}
use ize.Operations.Dump.{DumpObserver, observe, log_entry}
use ize.Operations.Dump.Laws.{bodies, bodies_of, body_of, recorder_of, bodies-observe}

bodies_of-append :
    (is_utf8 : Bytes → Bool) (xs ys : List Operation)
    → bodies_of is_utf8 (xs ++ ys) ≡ bodies_of is_utf8 xs ++ bodies_of is_utf8 ys
unfolding bodies_of
bodies_of-append is_utf8 [] ys = refl
bodies_of-append is_utf8 (x ∷ xs) ys =
    ap (λ l. body_of is_utf8 x ++ l) (bodies_of-append is_utf8 xs ys)
    ∙ sym (append_assoc (body_of is_utf8 x) (bodies_of is_utf8 xs) (bodies_of is_utf8 ys))

-- Neither the directory nor the filters of an observer change.
abbrev SameSettings : DumpObserver → DumpObserver → Type 0
SameSettings d d' = (d'.source_dir ≡ d.source_dir) × (d'.ignore_filters ≡ d.ignore_filters)

observe-SameSettings :
    (is_utf8 : Bytes → Bool) (os : Os) (e : Event) (d : DumpObserver)
    → SameSettings d (observe is_utf8 os e d)
unfolding observe log_entry
observe-SameSettings is_utf8 os (write ino fh offset bytes) d = ground arith
observe-SameSettings is_utf8 os (create parent name mode result_ino) d = ground arith
observe-SameSettings is_utf8 os (unlink parent name) d = ground arith
observe-SameSettings is_utf8 os (mkdir parent name mode result_ino) d = ground arith
observe-SameSettings is_utf8 os (rmdir parent name) d = ground arith
observe-SameSettings is_utf8 os (rename parent name newparent newname) d = ground arith
observe-SameSettings is_utf8 os (setattr ino size mode atime mtime) d = ground arith
observe-SameSettings is_utf8 os (symlink parent name target) d = ground arith
observe-SameSettings is_utf8 os (link ino newparent newname) d = ground arith

abbrev sharing : Dict FilePath → DumpObserver → DumpObserver
sharing m d = record d { inode_map = m }

module _ (F : Filesystem) (inode_map : F.State → Dict FilePath) (kinds : F.State → Kinds)
    (time : ℕ → SystemTime) (is_utf8 : Bytes → Bool) (clock : Clock) where
  abbrev pub dumping : FsObserver F DumpObserver
  dumping e fs d = observe is_utf8 (seen (kinds fs) time) e (sharing (inode_map fs) d)

  abbrev pub dumped : F.State → DumpObserver → ObservingFs F DumpObserver
  dumped fs d = record { inner = fs; observers = dumping ∷ []; world = d }

  -- The observer after a call.
  unfoldable after : F.State → DumpObserver → Option Event → DumpObserver
  after fs d none = d
  after fs d (some e) = observe is_utf8 (seen (kinds fs) time) e (sharing (inode_map fs) d)

  handle-dumped :
      (call : Call) (fs : F.State) (d : DumpObserver)
      → (Observing.handle clock call (dumped fs d)).0
        ≡ dumped (F.handle call fs).0 (after fs d (event_of clock call))
  unfolding hear after
  handle-dumped call fs d =
      ap (λ p. p.0) (handle-event_of {F = F} clock call (dumped fs d))
      ∙ ap (dumped (F.handle call fs).0) (heard (event_of clock call))
    where
      heard : (e : Option Event) → hear (dumped fs d) e ≡ after fs d e
      heard none = refl
      heard (some e) = refl

  after-SameSettings :
      (fs : F.State) (d : DumpObserver) (e : Option Event) → SameSettings d (after fs d e)
  unfolding after
  after-SameSettings fs d none = (refl, refl)
  after-SameSettings fs d (some e) =
      observe-SameSettings is_utf8 (seen (kinds fs) time) e (sharing (inode_map fs) d)

  bodies-after :
      (fs : F.State) (d : DumpObserver) (e : Option Event)
      → bodies (after fs d e)
        ≡ bodies d
          ++ bodies_of is_utf8
              (operations_of F inode_map kinds time clock fs d.source_dir d.ignore_filters e)
  unfolding after bodies bodies_of recorder_of
  bodies-after fs d none = sym (append-nil (bodies d))
  bodies-after fs d (some e) =
      bodies-observe is_utf8 (seen (kinds fs) time) e (sharing (inode_map fs) d)
      ∙ ap (λ ops. bodies d ++ bodies_of is_utf8 ops)
          (meaning-scope (seen (kinds fs) time) (inode_map fs) (recorder_of d) e)

  -- After a run of calls on a file system with only a dump observer, the log holds what it held
  -- before and then, in order, the bodies that tell of the operations that the calls stand for,
  -- each found with the file system's inode map at that moment.
  pub run-dumped :
      (calls : List Call) (fs : F.State) (d : DumpObserver)
      → bodies (run clock calls (dumped fs d)).0.world
        ≡ bodies d
          ++ bodies_of is_utf8
              (trace F inode_map kinds time clock calls fs d.source_dir d.ignore_filters)
  unfolding run trace bodies_of
  run-dumped [] fs d = sym (append-nil (bodies d))
  run-dumped (call ∷ calls) fs d =
      let event = event_of clock call in
      let d' = after fs d event in
      let fs' = (F.handle call fs).0 in
      let settings = after-SameSettings fs d event in
      let told =
        bodies_of is_utf8
          (operations_of F inode_map kinds time clock fs d.source_dir d.ignore_filters event) in
      let rest = trace F inode_map kinds time clock calls fs' d.source_dir d.ignore_filters in
      ap (λ o. bodies (run clock calls o).0.world) (handle-dumped call fs d)
      ∙ run-dumped calls fs' d'
      ∙ ap
          (λ l.
            l
            ++ bodies_of is_utf8
                (trace F inode_map kinds time clock calls fs' d'.source_dir d'.ignore_filters))
          (bodies-after fs d event)
      ∙ rw settings.0 (
          rw settings.1 (
            append_assoc (bodies d) told (bodies_of is_utf8 rest)
            ∙ ap (λ l. bodies d ++ l)
                (sym (
                  bodies_of-append is_utf8
                    (operations_of F inode_map kinds time clock fs d.source_dir d.ignore_filters
                      event)
                    rest))))
