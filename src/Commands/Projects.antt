-- ===== src/Commands/Projects.antt =====
-- crates/ize/src/main.rs: the commands init, status, list, channel, remove and unmount, on the
-- projects of ProjectManager. The messages that are printed are not modelled, only what they are
-- made of; a path is its text.
use ize.Prelude.{
  ℕ, Bool, true, false, ◌||◌, ◌&&◌, not, List, [], ◌∷◌, Option, none, some, Result, ok, err, String,
  if◌then◌else◌, any, map, ◌==◌, codes, str_eq,
}
use ize.Filesystems.Passthrough.{NewError}
use ize.Pijul.Libpijul.{Libpijul}
use ize.Pijul.Backend.{PijulError, Repository, attempt, or_else, unwrap_or}
use ize.Pijul.Backend.Channels.{
  create_channel, fork_channel, switch_channel, list_channels, default_channel,
}
use ize.Project.{ProjectError, pijul_error, Central, IzeProject}
use ize.Project.Manager.{
  ProjectInfo, ProjectManager, list_projects, with_central_dir, find_by_source_dir, delete_project,
}
use ize.Project.Create.{proceed, continue_after, create_project}

unfoldable starts_line_end : List ℕ → Bool
starts_line_end [] = false
starts_line_end (c ∷ cs) = c == 10

unfoldable push_code : ℕ → List (List ℕ) → List (List ℕ)
push_code c [] = (c ∷ []) ∷ []
push_code c (line ∷ lines) = (c ∷ line) ∷ lines

-- `str::lines`, on code points.
unfoldable pub lines : List ℕ → List (List ℕ)
unfolding starts_line_end push_code
lines [] = []
lines (c ∷ cs) =
    let rest = lines cs in
    if c == 10
    then [] ∷ rest
    else (if c == 13 && starts_line_end cs then rest else push_code c rest)

unfoldable starts_with : List ℕ → List ℕ → Bool
starts_with [] cs = true
starts_with (p ∷ ps) [] = false
starts_with (p ∷ ps) (c ∷ cs) = p == c && starts_with ps cs

-- `str::contains`, on code points.
unfoldable pub contains : List ℕ → List ℕ → Bool
unfolding starts_with
contains pattern [] = starts_with pattern []
contains pattern (c ∷ cs) = starts_with pattern (c ∷ cs) || contains pattern cs

pub data CommandError : Type 0 where
  not_mounted unmount_failed target_exists : String → CommandError
  does_not_exist not_a_directory not_tracked already_tracked currently_mounted :
      String → CommandError
  io_failed : String → CommandError
  project_failed : ProjectError → CommandError
  channel_failed : PijulError → CommandError
  passthrough_failed : NewError → CommandError

-- crates/ize-lib/src/cli/commands.rs: the subcommands of `channel`.
pub data ChannelAction : Type 0 where
  create_action switch_action : (name : String) (directory : Option String) → ChannelAction
  list_action : (directory : Option String) → ChannelAction
  fork_action : (name : String) (source directory : Option String) → ChannelAction

-- How a removal ends that does not fail.
pub data Removal : Type 0 where
  aborted removed : Removal

module _ (L : Libpijul) (C : Central L) where
  abbrev State : Type 0
  State = C.disk.State

  unfoldable pub is_fuse_mounted : String → State → Bool
  unfolding lines contains
  is_fuse_mounted path d = elim (C.read_to_string "/proc/mounts" d) [
    | err e ↦ false
    | ok mounts ↦
        any (λ line. contains (codes path) line && contains (codes "fuse") line)
          (lines (codes mounts))
  ]

  -- `current_dir` is what `std::env::current_dir` gives, or the empty path.
  unfoldable pub get_source_dir : String → Option String → State → Result String CommandError
  get_source_dir current_dir directory d =
      or_else io_failed (C.canonicalize (unwrap_or current_dir directory) d)

  unfoldable pub get_project :
      ProjectManager → String → State → State × Result (IzeProject L C) CommandError
  unfolding find_by_source_dir
  get_project manager source_dir d =
      let (d', found) = find_by_source_dir L C manager source_dir d in
      attempt d' (or_else project_failed found)
        λ project. elim project [ none ↦ (d', err (not_tracked source_dir)) | some p ↦ (d', ok p) ]

  -- What a subcommand leaves of the repository, and the channels that it lists, each with whether
  -- it is the current one.
  abbrev pub Listed : Type 0
  Listed = Repository L × List (String × Bool)

  unfoldable pub on_channel :
      (PijulError → CommandError)
      → Repository L × Result (Unit {0}) PijulError
      → Result Listed CommandError
  on_channel failed (r, ok u) = ok (r, [])
  on_channel failed (r, err e) = err (failed e)

  -- List and switch are methods of the project, create and fork of its backend.
  unfoldable pub act : ChannelAction → Repository L → Result Listed CommandError
  unfolding on_channel create_channel switch_channel fork_channel list_channels
  act (create_action name directory) r = on_channel channel_failed (create_channel L name r)
  act (switch_action name directory) r =
      on_channel (λ e. project_failed (pijul_error e)) (switch_channel L name r)
  act (list_action directory) r = elim (list_channels L r) [
    | err e ↦ err (project_failed (pijul_error e))
    | ok channels ↦ ok (r, map (λ channel. (channel, str_eq channel r.current_channel)) channels)
  ]
  act (fork_action name source directory) r =
      on_channel channel_failed (fork_channel L (unwrap_or r.current_channel source) name r)

  unfoldable pub directory_of : ChannelAction → Option String
  directory_of (create_action name directory) = directory
  directory_of (switch_action name directory) = directory
  directory_of (list_action directory) = directory
  directory_of (fork_action name source directory) = directory

  unfoldable pub new_manager : String → State → State × Result ProjectManager CommandError
  unfolding with_central_dir
  new_manager central_dir d =
      let (d', manager) = with_central_dir L C central_dir d in
      attempt d' (or_else project_failed manager) λ m. (d', ok m)

  unfoldable pub cmd_channel :
      (central_dir current_dir : String)
      → ChannelAction
      → State
      → State × Result Listed CommandError
  unfolding new_manager get_source_dir get_project act directory_of
  cmd_channel central_dir current_dir action d =
      let (d, manager) = new_manager central_dir d in
      attempt d manager λ m.
        attempt d (get_source_dir current_dir (directory_of action) d) λ source_dir.
          let (d, project) = get_project m source_dir d in
          attempt d project λ p. (d, act action p.pijul)

  -- What is printed of the project: itself, whether it is mounted, and its channels. The directory
  -- is the canonical path of the one that is given, or the current one as it is.
  abbrev pub Status : Type 0
  Status = IzeProject L C × Bool × List String

  unfoldable pub status_dir :
      Result String String → Option String → State → Result String CommandError
  status_dir current_dir none d = or_else io_failed current_dir
  status_dir current_dir (some directory) d = or_else io_failed (C.canonicalize directory d)

  unfoldable pub cmd_status :
      (central_dir : String)
      → Result String String
      → Option String
      → State
      → State × Result Status CommandError
  unfolding new_manager status_dir get_project is_fuse_mounted list_channels
  cmd_status central_dir current_dir directory d =
      let (d, manager) = new_manager central_dir d in
      attempt d manager λ m. attempt d (status_dir current_dir directory d) λ source_dir.
        let (d, project) = get_project m source_dir d in
        attempt d project λ p.
          attempt d (or_else (λ e. project_failed (pijul_error e)) (list_channels L p.pijul))
            λ channels. (d, ok (p, is_fuse_mounted source_dir d, channels))

  -- Every project, with whether its directory is mounted.
  unfoldable pub cmd_list : String → State → State × Result (List (ProjectInfo × Bool)) CommandError
  unfolding new_manager list_projects is_fuse_mounted
  cmd_list central_dir d =
      let (d, manager) = new_manager central_dir d in
      attempt d manager λ m.
        attempt d (or_else project_failed (list_projects L C m d))
          λ projects. (d, ok (map (λ p. (p, is_fuse_mounted p.source_dir d)) projects))

  -- `fusermount` runs fusermount -u, and tells whether it succeeded.
  unfoldable pub cmd_unmount :
      (fusermount : String → State → State × Result Bool String) (directory : String)
      → State
      → State × Result (Unit {0}) CommandError
  unfolding is_fuse_mounted
  cmd_unmount fusermount directory d =
      attempt d (or_else io_failed (C.canonicalize directory d)) λ source_dir.
        if is_fuse_mounted source_dir d
        then (let (d', status) = fusermount source_dir d in
            attempt d' (or_else io_failed status)
              λ success. if success then (d', ok tt) else (d', err (unmount_failed source_dir)))
        else (d, err (not_mounted source_dir))

  -- `confirmed` is whether the line that is read, without the blanks around it, is a y.
  unfoldable pub confirmation : Bool → Result Bool String → Result Bool CommandError
  confirmation force confirmed = if force then ok true else or_else io_failed confirmed

  unfoldable pub delete_tracked :
      ProjectManager → String → State → State × Result Removal CommandError
  unfolding delete_project
  delete_tracked manager source_dir d =
      let (d', deleted) = delete_project L C manager source_dir d in
      attempt d' (or_else project_failed deleted) λ found. (d', ok removed)

  unfoldable pub cmd_remove :
      (central_dir directory : String) (force : Bool)
      → Result Bool String
      → State
      → State × Result Removal CommandError
  unfolding new_manager get_project is_fuse_mounted confirmation delete_tracked
  cmd_remove central_dir directory force confirmed d =
      let (d, manager) = new_manager central_dir d in
      attempt d manager λ m.
        attempt d (or_else io_failed (C.canonicalize directory d)) λ source_dir.
          let (d, project) = get_project m source_dir d in
          attempt d project λ p.
            if is_fuse_mounted source_dir d
            then (d, err (currently_mounted directory))
            else (attempt d (confirmation force confirmed)
                λ yes. if yes then delete_tracked m source_dir d else (d, ok aborted))

  -- The project, on the channel that was asked for; it is created, and not switched to.
  unfoldable pub with_channel :
      Option String → IzeProject L C → Result (IzeProject L C) CommandError
  unfolding create_channel
  with_channel none p = ok p
  with_channel (some name) p =
      if str_eq name default_channel
      then ok p
      else (let (r, made) = create_channel L name p.pijul in
          elim made [ ok u ↦ ok (record p { pijul = r }) | err e ↦ err (channel_failed e) ])

  abbrev pub Initialized : Type 0
  Initialized = State × Option (Result (IzeProject L C) CommandError)

  unfoldable pub project_error : State × Option (Result (IzeProject L C) ProjectError) → Initialized
  project_error (d, none) = (d, none)
  project_error (d, some result) = (d, some (or_else project_failed result))

  unfoldable pub create_unless_tracked :
      ℕ
      → (uuid new_uuid now : String) → ProjectManager
      → (directory canonical : String) → Option String
      → State
      → Option (IzeProject L C)
      → Initialized
  unfolding create_project project_error with_channel
  create_unless_tracked fuel uuid new_uuid now m directory canonical channel d (some p) =
      (d, some (err (already_tracked canonical)))
  create_unless_tracked fuel uuid new_uuid now m directory canonical channel d none =
      continue_after (project_error (create_project L C fuel uuid new_uuid now m directory d))
        λ d project. (d, some (with_channel channel project))

  unfoldable pub cmd_init :
      ℕ → (uuid new_uuid now central_dir directory : String) → Option String → State → Initialized
  unfolding new_manager find_by_source_dir create_unless_tracked
  cmd_init fuel uuid new_uuid now central_dir directory channel d =
      if not (C.disk.exists directory d)
      then (d, some (err (does_not_exist directory)))
      else (if not (C.is_dir directory d)
          then (d, some (err (not_a_directory directory)))
          else (let (d, manager) = new_manager central_dir d in
              proceed d manager λ m.
                proceed d (or_else io_failed (C.canonicalize directory d)) λ canonical.
                  let (d, found) = find_by_source_dir L C m canonical d in
                  proceed d (or_else project_failed found) λ tracked.
                    create_unless_tracked fuel uuid new_uuid now m directory canonical channel d
                      tracked))
