-- ===== src/Runtime/Lookup.antt =====
-- The jobs that look up a path: its kind and times, the real path, the entries of a directory
-- (.mooncakes/moonbitlang/async/src/internal/event_loop/thread_pool.c). The
-- free functions give the references that they release; what a maker leaves unset, as the allocator
-- gave it, is its first arguments.
use moonbit.Prelude.{none, some, List, [], ◌∷◌, ◌==◌, if◌then◌else◌}
use moonbit.Prelude.Int.{ℤ, pos, negsuc, ltb_ℤ}
use moonbit.Runtime.Calls.{
  Ptr, Os, System, perform, last_errno, is_nonzero, stat_into, lstat_into, rewind, getdents64,
  realpath, fstatat,
}
use moonbit.Runtime.Job.{Job, make_job, store, file_kind_from_stat}

-- `struct file_kind_by_path_job`
pub record FileKindByPathJob : Type 0 where
  pub job : Job
  pub parent : ℤ
  pub path : Ptr
  pub follow_symlink : ℤ

unfoldable pub free_file_kind_by_path_job : FileKindByPathJob → List Ptr
free_file_kind_by_path_job obj = obj.path ∷ []

unfoldable pub file_kind_by_path_job_worker :
    {K : Type 0} → Os K → FileKindByPathJob → System K → FileKindByPathJob × System K
unfolding perform store last_errno
file_kind_by_path_job_worker os self s =
    let (r, s') =
      perform os
        (fstatat (if ltb_ℤ self.parent (pos 0) then none else some self.parent) self.path
          (is_nonzero self.follow_symlink))
        s in
    (
      record self {
        job =
            if ltb_ℤ r.ret (pos 0)
            then record self.job { err = r.errno }
            else record self.job { ret = file_kind_from_stat r.stat };
      },
      s',
    )

unfoldable pub make_file_kind_by_path_job : ℤ → Ptr → ℤ → FileKindByPathJob
unfolding make_job
make_file_kind_by_path_job parent path follow_symlink = record {
  job = make_job;
  parent = parent;
  path = path;
  follow_symlink = follow_symlink;
}

-- `struct file_time_by_path_job`
pub record FileTimeByPathJob : Type 0 where
  pub job : Job
  pub path : Ptr
  pub out : Ptr
  pub follow_symlink : ℤ

unfoldable pub free_file_time_by_path_job : FileTimeByPathJob → List Ptr
free_file_time_by_path_job obj = obj.path ∷ obj.out ∷ []

unfoldable pub file_time_by_path_job_worker :
    {K : Type 0} → Os K → FileTimeByPathJob → System K → FileTimeByPathJob × System K
unfolding perform store last_errno
file_time_by_path_job_worker os self s =
    let (r, s') =
      perform os
        (if is_nonzero self.follow_symlink
          then stat_into self.path self.out
          else lstat_into self.path self.out)
        s in
    (record self { job = store r self.job }, s')

unfoldable pub make_file_time_by_path_job : Ptr → Ptr → ℤ → FileTimeByPathJob
unfolding make_job
make_file_time_by_path_job path out follow_symlink = record {
  job = make_job;
  path = path;
  out = out;
  follow_symlink = follow_symlink;
}

-- `struct readdir_job`
pub record ReaddirJob : Type 0 where
  pub job : Job
  pub dir : ℤ
  pub out : Ptr
  pub len : ℤ
  pub restart : ℤ

unfoldable pub free_readdir_job : ReaddirJob → List Ptr
free_readdir_job obj = obj.out ∷ []

-- After the directory is rewound, where it is to be.
unfoldable pub read_entries : {K : Type 0} → Os K → ReaddirJob → System K → ReaddirJob × System K
unfolding perform store
read_entries os self s =
    let (r, s') = perform os (getdents64 self.dir self.out self.len) s in
    (record self { job = store r self.job }, s')

unfoldable pub readdir_job_worker :
    {K : Type 0} → Os K → ReaddirJob → System K → ReaddirJob × System K
unfolding perform read_entries
readdir_job_worker os self s =
    let (r, s') = perform os (rewind self.dir) s in
    let rewound = read_entries os self s' in
    let direct = read_entries os self s in
    if is_nonzero self.restart
    then (if ltb_ℤ r.ret (pos 0)
        then (record self { job = record self.job { err = r.errno } }, s')
        else rewound)
    else direct

unfoldable pub make_readdir_job : ℤ → Ptr → ℤ → ℤ → ReaddirJob
unfolding make_job
make_readdir_job dir out len restart = record {
  job = make_job;
  dir = dir;
  out = out;
  len = len;
  restart = restart;
}

-- `struct realpath_job`
pub record RealpathJob : Type 0 where
  pub job : Job
  pub path : Ptr
  pub result : Ptr

unfoldable pub free_realpath_job : RealpathJob → List Ptr
free_realpath_job obj = obj.path ∷ []

unfoldable pub realpath_job_worker :
    {K : Type 0} → Os K → RealpathJob → System K → RealpathJob × System K
unfolding perform store last_errno
realpath_job_worker os self s =
    let (r, s') = perform os (realpath self.path) s in
    (
      record self {
        job = if r.pointer == 0 then record { ret = negsuc 0; err = r.errno } else self.job;
        result = r.pointer;
      },
      s',
    )

unfoldable pub make_realpath_job : Ptr → Ptr → RealpathJob
unfolding make_job
make_realpath_job result path = record { job = make_job; path = path; result = result }

unfoldable pub get_realpath_result : RealpathJob → Ptr
get_realpath_result job = job.result
