-- ===== src/Runtime/Spawn/Calls.antt =====
-- Which calls the job that starts a process makes
-- (.mooncakes/moonbitlang/async/src/internal/event_loop/thread_pool.c).
use moonbit.Prelude.{
  ℕ, ◌==◌, ◌≡◌, refl, ap, sym, Bool, true, false, List, [], ◌∷◌, ◌++◌, if◌then◌else◌, Bool-cases,
  inl, inr,
}
use moonbit.Prelude.Int.{ℤ, pos, ltb_ℤ}
use moonbit.Runtime.Calls.{Ptr}
use moonbit.Runtime.Job.{Job}
use moonbit.Runtime.Pool.{Pool, sigfillset}
use moonbit.Runtime.Spawn.{
  SpawnCall, attr_init, setup, actions_init, adddup2, addchdir, spawn, spawnp, attr_destroy,
  actions_destroy, SpawnOs, SpawnJob, has_slash, attempt, ignoring, unless_failed, start_process,
  change_directory, redirect, spawn_job_worker,
}

-- The calls that depend on each other: the streams that are given, in their order, the directory if
-- one is given, and the start.
abbrev pub stream : ℤ → ℕ → List SpawnCall
stream fd i = if ltb_ℤ fd (pos 0) then [] else adddup2 fd i ∷ []

abbrev pub directory : Ptr → List SpawnCall
directory cwd = if cwd == 0 then [] else addchdir cwd ∷ []

abbrev pub start : (Ptr → List ℕ) → SpawnJob → List SpawnCall
start string_at self =
    (if has_slash (string_at self.path)
      then spawn self.path self.args self.envp
      else spawnp self.path self.args self.envp)
    ∷ []

abbrev pub plan : (Ptr → List ℕ) → SpawnJob → List SpawnCall
plan string_at self =
    stream self.stdin_fd 0
    ++ (stream self.stdout_fd 1
        ++ (stream self.stderr_fd 2 ++ (directory self.cwd ++ start string_at self)))

module _ {K : Type 0} (os : SpawnOs K) where
  -- One call after another, up to the first that fails.
  abbrev pub run_until : List SpawnCall → Job × K → Job × K
  run_until [] s = s
  run_until (c ∷ cs) s = unless_failed os (run_until cs) (attempt os c s)

  abbrev pub run_all : List SpawnCall → Job × K → Job × K
  run_all [] s = s
  run_all (c ∷ cs) s = run_all cs (ignoring os c s)

  alone : (r : Bool × (Job × K)) → unless_failed os (λ s. s) r ≡ r.1
  unfolding unless_failed
  alone (true, s) = refl
  alone (false, s) = refl

  start_planned :
      (string_at : Ptr → List ℕ) (self : SpawnJob) (s : Job × K)
      → start_process os string_at self s ≡ run_until (start string_at self) s
  unfolding start_process
  start_planned string_at self s = elim (Bool-cases (has_slash (string_at self.path))) [
    | inl given ↦ rw given (sym (alone (attempt os (spawn self.path self.args self.envp) s)))
    | inr named ↦ rw named (sym (alone (attempt os (spawnp self.path self.args self.envp) s)))
  ]

  directory_planned :
      (string_at : Ptr → List ℕ) (self : SpawnJob) (s : Job × K)
      → change_directory os string_at self s
        ≡ run_until (directory self.cwd ++ start string_at self) s
  unfolding change_directory
  directory_planned string_at self s = elim (Bool-cases (self.cwd == 0)) [
    | inl stays ↦ rw stays (start_planned string_at self s)
    | inr moves ↦ rw moves (
        ap (λ next. unless_failed os next (attempt os (addchdir self.cwd) s))
          (λ i x. start_planned string_at self x i))
  ]

  continued :
      (next : Job × K → Job × K) (rest : List SpawnCall) (r : Bool × (Job × K))
      → ((s' : Job × K) → next s' ≡ run_until rest s')
      → unless_failed os next r ≡ unless_failed os (run_until rest) r
  unfolding unless_failed
  continued next rest (true, s) same = same s
  continued next rest (false, s) same = refl

  redirect_planned :
      (fd : ℤ) (i : ℕ) (next : Job × K → Job × K) (rest : List SpawnCall) (s : Job × K)
      → ((s' : Job × K) → next s' ≡ run_until rest s')
      → redirect os fd i next s ≡ run_until (stream fd i ++ rest) s
  unfolding redirect
  redirect_planned fd i next rest s same = elim (Bool-cases (ltb_ℤ fd (pos 0))) [
    | inl closed ↦ rw closed (same s)
    | inr given ↦ rw given (continued next rest (attempt os (adddup2 fd i) s) same)
  ]

  -- The job makes the calls of its plan up to the first that fails, after having set the attributes
  -- up with the mask from before the pool and with the handlers of all signals to be reset, and it
  -- destroys attributes and actions in any case; its error number and its result are those of the
  -- last call of the plan that was made.
  spawn_job_worker_lem :
      (pool : Pool) (string_at : Ptr → List ℕ) (self : SpawnJob) (s : K)
      → let ready =
          run_all
            (attr_init ∷ setup pool.old_sigmask sigfillset ∷ actions_init ∷ [])
            (self.job, s) in
        let ended = run_until (plan string_at self) ready in
        let done = run_all (attr_destroy ∷ actions_destroy ∷ []) ended in
        spawn_job_worker os pool string_at self s ≡ (record self { job = done.0 }, done.1)
  unfolding spawn_job_worker
  spawn_job_worker_lem pool string_at self s =
      let ready =
        run_all (attr_init ∷ setup pool.old_sigmask sigfillset ∷ actions_init ∷ []) (self.job, s) in
      ap
        (λ x.
          let done = run_all (attr_destroy ∷ actions_destroy ∷ []) x in
          (record self { job = done.0 }, done.1))
        (redirect_planned self.stdin_fd 0
          (redirect os self.stdout_fd 1
            (redirect os self.stderr_fd 2 (change_directory os string_at self)))
          (stream self.stdout_fd 1
            ++ (stream self.stderr_fd 2 ++ (directory self.cwd ++ start string_at self)))
          ready
          (λ s'.
            redirect_planned self.stdout_fd 1
              (redirect os self.stderr_fd 2 (change_directory os string_at self))
              (stream self.stderr_fd 2 ++ (directory self.cwd ++ start string_at self)) s'
              (λ s''.
                redirect_planned self.stderr_fd 2 (change_directory os string_at self)
                  (directory self.cwd ++ start string_at self) s''
                  (λ x. directory_planned string_at self x))))
