-- ===== src/Commands/MountFd/Refused.antt =====
-- crates/ize/src/bin/ize_mount_fd.rs: the descriptors that a refused mount leaves.
use mathlib.Core.Path.{subst}
use ize.Prelude.{
  ℕ, ◌≡◌, refl, ap, ◌∙◌, Bool, true, false, List, Result, ok, err, String, ◌==◌, if◌then◌else◌,
  if_either, pos, negsuc, ℤ, arith,
}
use ize.Operations.Opcode.{SystemTime}
use ize.FilePath.{FilePath}
use ize.Vcs.{IgnoreFilter}
use ize.Filesystems.Backing.{Libc, IoError}
use ize.Filesystems.Syscalls.{Syscalls}
use ize.Filesystems.Observing.{Clock}
use ize.Filesystems.PassthroughFd.{FdPassthroughFs, Listed, new, set_read_only}
use ize.Filesystems.LibcBacking.{
  LibcBackingFs, Outcome, open_dir, drop, c_string, checked, directory_flags,
}
use ize.Filesystems.LibcBacking.Laws.{DescriptorLaws, Keeps, Opened}
use ize.Filesystems.LibcBacking.Store.{libc_backing}
use ize.Operations.Operation.{Bytes}
use ize.Operations.Recorder.{Kinds}
use ize.Operations.Dump.{Entry}
use ize.Pijul.Backend.{attempt, attempt_either, or_else}
use ize.Commands.MountFd.{
  MountFdError, not_opened, Host, Mounted, with_log, observe_dump, with_handler, mount_backing,
  mount_fd,
}

module _ (S : Syscalls) (is_open : ℕ → S.State → Bool) (fd_of : S.Dir → ℕ)
    (left : S.Dir → S.State → ℕ) (D : DescriptorLaws S is_open fd_of left) where
  -- A new base descriptor, owned; an error opens nothing.
  abbrev OpenedBase : ℕ → S.State → Outcome S LibcBackingFs → Type 0
  OpenedBase n s (s', ok b) =
      (b.owned ≡ true)
      × (is_open b.base_fd s ≡ false)
      × (is_open n s' ≡ (if b.base_fd == n then true else is_open n s))
  OpenedBase n s (s', err e) = Keeps is_open n s s'

  open_dir-OpenedBase : (n : ℕ) (path : String) (s : S.State) → OpenedBase n s (open_dir S path s)
  unfolding open_dir checked
  open_dir-OpenedBase n path s = by_path (c_string path)
    where
      by_result :
          (out : S.State × ℤ)
          → Opened is_open n s out
          → OpenedBase n s (checked S (λ fd. record { base_fd = fd; owned = true }) out)
      by_result (t, pos fd) h = (refl, h.0, h.1)
      by_result (t, negsuc k) h = h

      by_path :
          (r : Result String IoError)
          → OpenedBase n s (elim r as (λ x. Outcome S LibcBackingFs) [
            | err e ↦ (s, err e)
            | ok c_path ↦
                checked S
                  (λ fd. record { base_fd = fd; owned = true })
                  (S.open_path c_path (directory_flags S) s)
          ])
      by_path (ok c_path) = by_result _ (D.open_path n c_path (directory_flags S) s)
      by_path (err e) = refl

  module _ (H : Host S) (c : Libc) (is_full : List Listed → Listed → Bool) (fuel : ℕ)
      (as_path : String → FilePath) (is_utf8 : Bytes → Bool)
      (kinds : FdPassthroughFs S.State → Kinds) (time : ℕ → SystemTime) (clock : Clock) where
    abbrev Out : Type 0
    Out =
        S.State × Result (Mounted S H c is_full fuel as_path is_utf8 kinds time clock) MountFdError

    abbrev KeepsIfRefused : ℕ → S.State → Out → Type 0
    KeepsIfRefused n s (s', err e) = Keeps is_open n s s'
    KeepsIfRefused n s (s', ok mount) = Unit

    abbrev KeepsOnError : ℕ → S.State → S.State × Result (List Entry) IoError → Type 0
    KeepsOnError n s (s', err e) = Keeps is_open n s s'
    KeepsOnError n s (s', ok entries) = Unit

    with_log-KeepsIfRefused :
        (n : ℕ) (s s' : S.State) (store : LibcBackingFs) (target_dir : FilePath)
        (fs : FdPassthroughFs S.State) (filters : List IgnoreFilter)
        (log : S.State × Result (List Entry) IoError)
        → OpenedBase n s (s', ok store)
        → KeepsOnError n s' log
        → KeepsIfRefused n s (
            with_log S H c is_full fuel as_path is_utf8 kinds time clock store target_dir fs filters
              log)
    unfolding with_log drop
    with_log-KeepsIfRefused n s s' store target_dir fs filters (t, ok entries) base kept = tt
    with_log-KeepsIfRefused n s s' store target_dir fs filters (t, err e) base kept =
        let (owned, fresh, opened) = base in
        ap (λ o. is_open n (if o then (S.close store.base_fd t).0 else t)) owned
        ∙ ground (arith, D.close n store.base_fd t, fresh, opened, kept)

    abbrev KeepsLog : ℕ → Type 0
    KeepsLog n = (s : S.State) → KeepsOnError n s (H.open_dump s)

    abbrev KeepsHandler : ℕ → Type 0
    KeepsHandler n = (s : S.State) → Keeps is_open n s (H.set_handler s).0

    observe_dump-KeepsIfRefused :
        (n : ℕ) (dump : Bool) (target_dir : FilePath) (s : S.State) (store : LibcBackingFs)
        (fs : FdPassthroughFs S.State)
        → KeepsLog n
        → OpenedBase n s (fs.backing, ok store)
        → KeepsIfRefused n s (
            observe_dump S H c is_full fuel as_path is_utf8 kinds time clock dump store target_dir
              fs)
    unfolding observe_dump
    observe_dump-KeepsIfRefused n false target_dir s store fs log base = tt
    observe_dump-KeepsIfRefused n true target_dir s store fs log base =
        with_log-KeepsIfRefused n s fs.backing store target_dir fs _ (H.open_dump fs.backing) base
          (log fs.backing)

    with_handler-KeepsIfRefused :
        (n : ℕ) (dump : Bool) (target_dir : FilePath) (s s' : S.State) (store : LibcBackingFs)
        (fs : FdPassthroughFs S.State) (out : S.State × Result (Unit {0}) IoError)
        → KeepsLog n
        → OpenedBase n s (s', ok store)
        → Keeps is_open n s' out.0
        → KeepsIfRefused n s (
            with_handler S H c is_full fuel as_path is_utf8 kinds time clock dump store target_dir
              fs out)
    unfolding with_handler drop
    with_handler-KeepsIfRefused n dump target_dir s s' store fs (t, err e) log base kept =
        let (owned, fresh, opened) = base in
        ap (λ o. is_open n (if o then (S.close store.base_fd t).0 else t)) owned
        ∙ ground (arith, D.close n store.base_fd t, fresh, opened, kept)
    with_handler-KeepsIfRefused n dump target_dir s s' store fs (t, ok done) log base kept =
        let (owned, fresh, opened) = base in
        observe_dump-KeepsIfRefused n dump target_dir s store (record fs { backing = t }) log
          (owned, fresh, kept ∙ opened)

    mount_backing-KeepsIfRefused :
        (n : ℕ) (read_only dump : Bool) (target_dir : FilePath) (s s' : S.State)
        (store : LibcBackingFs)
        → KeepsHandler n
        → KeepsLog n
        → OpenedBase n s (s', ok store)
        → KeepsIfRefused n s (
            mount_backing S H c is_full fuel as_path is_utf8 kinds time clock read_only dump
              target_dir store s')
    unfolding mount_backing
    mount_backing-KeepsIfRefused n read_only dump target_dir s s' store handler log base =
        let fs = new c (libc_backing S fuel store) s' target_dir in
        with_handler-KeepsIfRefused n dump target_dir s s' store
          (if read_only then set_read_only fs true else fs) (H.set_handler s') log base (handler s')

    opened-KeepsIfRefused :
        (n : ℕ) (read_only dump : Bool) (target_dir : FilePath) (s : S.State)
        (out : Outcome S LibcBackingFs)
        → KeepsHandler n
        → KeepsLog n
        → OpenedBase n s out
        → KeepsIfRefused n s (
            attempt out.0 (or_else not_opened out.1) λ store.
              mount_backing S H c is_full fuel as_path is_utf8 kinds time clock read_only dump
                target_dir store out.0)
    unfolding attempt
    opened-KeepsIfRefused n read_only dump target_dir s (s', ok store) handler log base =
        mount_backing-KeepsIfRefused n read_only dump target_dir s s' store handler log base
    opened-KeepsIfRefused n read_only dump target_dir s (s', err e) handler log kept = kept

    mount_fd-KeepsIfRefused :
        (n : ℕ) (directory : String) (read_only dump : Bool) (s : S.State)
        → KeepsHandler n
        → KeepsLog n
        → KeepsIfRefused n s (
            mount_fd S H c is_full fuel as_path is_utf8 kinds time clock directory read_only dump s)
    unfolding mount_fd
    mount_fd-KeepsIfRefused n directory read_only dump s handler log =
        attempt_either (KeepsIfRefused n s) s _ _ (λ e. refl)
          λ target_dir.
            if_either (KeepsIfRefused n s) (H.is_dir target_dir s) _ _
              (opened-KeepsIfRefused n read_only dump (as_path target_dir) s
                (open_dir S target_dir s) handler log (open_dir-OpenedBase n target_dir s))
              refl

    -- Whichever step before `mount2` refuses the mount, a descriptor is open afterwards exactly if it was before,
    -- the directory's included, if it is none of those that the handler of signals keeps, and a log
    -- that cannot be opened leaves no descriptor.
    pub mount_fd_refused :
        (n : ℕ) (directory : String) (read_only dump : Bool) (s s' : S.State) (e : MountFdError)
        → ((s : S.State) → Keeps is_open n s (H.set_handler s).0)
        → ((s : S.State) → KeepsOnError n s (H.open_dump s))
        → mount_fd S H c is_full fuel as_path is_utf8 kinds time clock directory read_only dump s
          ≡ (s', err e)
        → is_open n s' ≡ is_open n s
    mount_fd_refused n directory read_only dump s s' e handler log refused =
        subst (KeepsIfRefused n s) refused
          (mount_fd-KeepsIfRefused n directory read_only dump s handler log)
