-- ===== src/Runtime/Spawn.antt =====
-- The job that starts a process
-- (.mooncakes/moonbitlang/async/src/internal/event_loop/thread_pool.c), on Linux. The calls of
-- posix_spawn are a parameter, each with its error number, 0 for none, and the process that it started;
-- `string_at` gives the bytes at an address up to the 0.
pub mod Calls
use moonbit.Prelude.{
  ℕ, ◌==◌, ◌||◌, Bool, true, false, Option, none, some, List, [], ◌∷◌, ◌++◌, if◌then◌else◌,
}
use moonbit.Prelude.Int.{ℤ, pos, ltb_ℤ}
use moonbit.Runtime.Calls.{Ptr, is_nonzero}
use moonbit.Runtime.Job.{Job, make_job}
use moonbit.Runtime.Pool.{SignalSet, Pool, sigfillset}

-- `adddup2 fd target`; `setup` is for the flags POSIX_SPAWN_SETSIGMASK and POSIX_SPAWN_SETSIGDEF with
-- both sets; `spawnp` looks its path up in PATH.
pub data SpawnCall : Type 0 where
  attr_init actions_init : SpawnCall
  setup : SignalSet → SignalSet → SpawnCall
  adddup2 : ℤ → ℕ → SpawnCall
  addchdir : Ptr → SpawnCall
  spawn spawnp : Ptr → Ptr → Ptr → SpawnCall
  attr_destroy actions_destroy : SpawnCall

pub record SpawnReply : Type 0 where
  pub error : ℤ
  pub pid : Option ℤ

abbrev pub SpawnOs : Type 0 → Type 0
SpawnOs K = SpawnCall → K → SpawnReply × K

-- `struct spawn_job`
pub record SpawnJob : Type 0 where
  pub job : Job
  pub path : Ptr
  pub args : Ptr
  pub envp : Ptr
  pub stdin_fd : ℤ
  pub stdout_fd : ℤ
  pub stderr_fd : ℤ
  pub cwd : Ptr

-- The references that it releases.
unfoldable pub free_spawn_job : SpawnJob → List Ptr
free_spawn_job job = job.path ∷ job.args ∷ job.envp ∷ (if job.cwd == 0 then [] else job.cwd ∷ [])

-- `strchr(path, '/')`
unfoldable pub has_slash : List ℕ → Bool
has_slash [] = false
has_slash (c ∷ path) = c == b'/' || has_slash path

-- `job->err = call(...)`, and the process where there is one.
unfoldable pub keep : SpawnReply → Job → Job
keep r job = record { ret = elim r.pid [ none ↦ job.ret | some pid ↦ pid ]; err = r.error }

module _ {K : Type 0} (os : SpawnOs K) where
  -- A call whose result is looked at: whether the job goes on.
  unfoldable pub attempt : SpawnCall → Job × K → Bool × (Job × K)
  unfolding keep is_nonzero
  attempt c (job, s) =
      let (r, s') = os c s in (if is_nonzero r.error then false else true, (keep r job, s'))

  -- A call whose result is not.
  unfoldable pub ignoring : SpawnCall → Job × K → Job × K
  ignoring c (job, s) = (job, (os c s).1)

  unfoldable pub unless_failed : (Job × K → Job × K) → Bool × (Job × K) → Job × K
  unless_failed next (true, s) = next s
  unless_failed next (false, s) = s

  -- After the loop over the standard streams.
  unfoldable pub start_process : (Ptr → List ℕ) → SpawnJob → Job × K → Job × K
  unfolding attempt has_slash
  start_process string_at self s =
      if has_slash (string_at self.path)
      then (attempt (spawn self.path self.args self.envp) s).1
      else (attempt (spawnp self.path self.args self.envp) s).1

  unfoldable pub change_directory : (Ptr → List ℕ) → SpawnJob → Job × K → Job × K
  unfolding attempt unless_failed start_process
  change_directory string_at self s =
      if self.cwd == 0
      then start_process string_at self s
      else unless_failed (start_process string_at self) (attempt (addchdir self.cwd) s)

  -- One round of the loop.
  unfoldable pub redirect : ℤ → ℕ → (Job × K → Job × K) → Job × K → Job × K
  unfolding attempt unless_failed
  redirect fd i next s =
      if ltb_ℤ fd (pos 0) then next s else unless_failed next (attempt (adddup2 fd i) s)

  unfoldable pub spawn_job_worker : Pool → (Ptr → List ℕ) → SpawnJob → K → SpawnJob × K
  unfolding ignoring redirect change_directory sigfillset
  spawn_job_worker pool string_at self s =
      let ready =
        ignoring actions_init
          (ignoring (setup pool.old_sigmask sigfillset) (ignoring attr_init (self.job, s))) in
      let ended =
        redirect self.stdin_fd 0
          (redirect self.stdout_fd 1 (redirect self.stderr_fd 2 (change_directory string_at self)))
          ready in
      let (job, s') = ignoring actions_destroy (ignoring attr_destroy ended) in
      (record self { job = job }, s')

unfoldable pub make_spawn_job : Ptr → Ptr → Ptr → ℤ → ℤ → ℤ → Ptr → SpawnJob
unfolding make_job
make_spawn_job path args envp stdin_fd stdout_fd stderr_fd cwd = record {
  job = make_job;
  path = path;
  args = args;
  envp = envp;
  stdin_fd = stdin_fd;
  stdout_fd = stdout_fd;
  stderr_fd = stderr_fd;
  cwd = cwd;
}
