-- ===== src/Runtime/Processes.antt =====
-- The jobs on time, processes, sockets and watches
-- (.mooncakes/moonbitlang/async/src/internal/event_loop/thread_pool.c). The
-- free functions give the references that they release; what a maker leaves unset, as the allocator
-- gave it, is its first arguments.
use moonbit.Prelude.{List, [], ◌∷◌, if◌then◌else◌, ℕ, ◌/◌, ◌%◌}
use moonbit.Prelude.Int.{ℤ, pos, ◌*ℤ◌}
use moonbit.Runtime.Calls.{
  Ptr, Os, System, WatchFlag, in_create, in_moved_from, in_moved_to, in_delete, in_modify, perform,
  last_errno, is_nonzero, eq_ℤ, quot, rem, nanosleep, waitpid, bind, inotify_add_watch,
}
use moonbit.Runtime.Job.{Job, make_job, store}

unfoldable pub watch_flags : ℤ → List WatchFlag
unfolding is_nonzero
watch_flags is_dir =
    if is_nonzero is_dir
    then in_create ∷ in_moved_from ∷ in_moved_to ∷ in_delete ∷ []
    else in_modify ∷ []

-- `WEXITSTATUS`
unfoldable pub wexitstatus : ℕ → ℤ
wexitstatus status = pos (status / 256 % 256)

-- `struct sleep_job`
pub record SleepJob : Type 0 where
  pub job : Job
  pub duration : ℤ

unfoldable pub free_sleep_job : SleepJob → List Ptr
free_sleep_job obj = []

unfoldable pub sleep_job_worker : {K : Type 0} → Os K → SleepJob → System K → SleepJob × System K
unfolding perform store last_errno
sleep_job_worker os self s =
    let (_, s') =
      perform os (nanosleep (quot self.duration 1000) (rem self.duration 1000 *ℤ pos 1000000)) s in
    (self, s')

unfoldable pub make_sleep_job : ℤ → SleepJob
unfolding make_job
make_sleep_job duration = record { job = make_job; duration = duration }

-- `struct wait_for_process_job`
pub record WaitForProcessJob : Type 0 where
  pub job : Job
  pub pid : ℤ

unfoldable pub free_wait_for_process_job : WaitForProcessJob → List Ptr
free_wait_for_process_job obj = []

unfoldable pub wait_for_process_job_worker :
    {K : Type 0} → Os K → WaitForProcessJob → System K → WaitForProcessJob × System K
unfolding perform store last_errno
wait_for_process_job_worker os self s =
    let (r, s') = perform os (waitpid self.pid) s in
    (
      record self {
        job =
            if eq_ℤ r.ret self.pid
            then record self.job { ret = wexitstatus r.status }
            else record self.job { err = r.errno };
      },
      s',
    )

unfoldable pub make_wait_for_process_job : ℤ → WaitForProcessJob
unfolding make_job
make_wait_for_process_job pid = record { job = make_job; pid = pid }

-- `struct bind_job`
pub record BindJob : Type 0 where
  pub job : Job
  pub socket : ℤ
  pub addr : Ptr

unfoldable pub free_bind_job : BindJob → List Ptr
free_bind_job obj = obj.addr ∷ []

unfoldable pub bind_job_worker : {K : Type 0} → Os K → BindJob → System K → BindJob × System K
unfolding perform store last_errno
bind_job_worker os self s =
    let (r, s') = perform os (bind self.socket self.addr) s in
    (record self { job = store r self.job }, s')

unfoldable pub make_bind_job : ℤ → Ptr → BindJob
unfolding make_job
make_bind_job socket addr = record { job = make_job; socket = socket; addr = addr }

-- `struct inotify_add_watch_job`
pub record InotifyAddWatchJob : Type 0 where
  pub job : Job
  pub inotify : ℤ
  pub path : Ptr
  pub is_dir : ℤ

unfoldable pub free_inotify_add_watch_job : InotifyAddWatchJob → List Ptr
free_inotify_add_watch_job obj = obj.path ∷ []

unfoldable pub inotify_add_watch_job_worker :
    {K : Type 0} → Os K → InotifyAddWatchJob → System K → InotifyAddWatchJob × System K
unfolding perform store last_errno
inotify_add_watch_job_worker os self s =
    let (r, s') =
      perform os (inotify_add_watch self.inotify self.path (watch_flags self.is_dir)) s in
    (record self { job = store r self.job }, s')

unfoldable pub make_inotify_add_watch_job : ℤ → Ptr → ℤ → InotifyAddWatchJob
unfolding make_job
make_inotify_add_watch_job inotify path is_dir = record {
  job = make_job;
  inotify = inotify;
  path = path;
  is_dir = is_dir;
}
