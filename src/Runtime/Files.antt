-- ===== src/Runtime/Files.antt =====
-- The jobs on open files: read, write, kind_of_fd, file_size, file_time, fsync and flock
-- (.mooncakes/moonbitlang/async/src/internal/event_loop/thread_pool.c). The
-- free functions give the references that they release; what a maker leaves unset, as the allocator
-- gave it, is its first arguments.
use moonbit.Prelude.{List, [], ◌∷◌, if◌then◌else◌}
use moonbit.Prelude.Int.{ℤ, pos, ltb_ℤ, wrap32}
use moonbit.Runtime.Calls.{
  Ptr, Os, System, perform, last_errno, is_nonzero, read, pread, write, pwrite, fstat, fstat_into,
  fdatasync, fsync, flock,
}
use moonbit.Runtime.Job.{Job, make_job, store, kind_of_fd}

-- `struct read_job`
pub record ReadJob : Type 0 where
  pub job : Job
  pub fd : ℤ
  pub buf : Ptr
  pub offset : ℤ
  pub len : ℤ
  pub position : ℤ

unfoldable pub free_read_job : ReadJob → List Ptr
free_read_job obj = obj.buf ∷ []

unfoldable pub read_job_worker : {K : Type 0} → Os K → ReadJob → System K → ReadJob × System K
unfolding perform store last_errno
read_job_worker os self s =
    let (r, s') =
      perform os
        (if ltb_ℤ self.position (pos 0)
          then read self.fd self.buf self.offset self.len
          else pread self.fd self.buf self.offset self.len self.position)
        s in
    (record self { job = store r self.job }, s')

unfoldable pub make_read_job : ℤ → Ptr → ℤ → ℤ → ℤ → ReadJob
unfolding make_job
make_read_job fd buf offset len position = record {
  job = make_job;
  fd = fd;
  buf = buf;
  offset = offset;
  len = len;
  position = position;
}

-- `struct write_job`
pub record WriteJob : Type 0 where
  pub job : Job
  pub fd : ℤ
  pub buf : Ptr
  pub offset : ℤ
  pub len : ℤ
  pub position : ℤ

unfoldable pub free_write_job : WriteJob → List Ptr
free_write_job obj = obj.buf ∷ []

unfoldable pub write_job_worker : {K : Type 0} → Os K → WriteJob → System K → WriteJob × System K
unfolding perform store last_errno
write_job_worker os self s =
    let (r, s') =
      perform os
        (if ltb_ℤ self.position (pos 0)
          then write self.fd self.buf self.offset self.len
          else pwrite self.fd self.buf self.offset self.len self.position)
        s in
    (record self { job = store r self.job }, s')

unfoldable pub make_write_job : ℤ → Ptr → ℤ → ℤ → ℤ → WriteJob
unfolding make_job
make_write_job fd buf offset len position = record {
  job = make_job;
  fd = fd;
  buf = buf;
  offset = offset;
  len = len;
  position = position;
}

-- `struct kind_of_fd_job`
pub record KindOfFdJob : Type 0 where
  pub job : Job
  pub fd : ℤ

unfoldable pub free_kind_of_fd_job : KindOfFdJob → List Ptr
free_kind_of_fd_job obj = []

unfoldable pub kind_of_fd_job_worker :
    {K : Type 0} → Os K → KindOfFdJob → System K → KindOfFdJob × System K
unfolding perform store last_errno
kind_of_fd_job_worker os self s =
    let (ret, s') = kind_of_fd os self.fd s in
    (
      record self {
        job = record { ret = ret; err = if ltb_ℤ ret (pos 0) then last_errno s' else self.job.err };
      },
      s',
    )

unfoldable pub make_kind_of_fd_job : ℤ → KindOfFdJob
unfolding make_job
make_kind_of_fd_job fd = record { job = make_job; fd = fd }

-- `struct file_size_job`
pub record FileSizeJob : Type 0 where
  pub job : Job
  pub fd : ℤ
  pub result : ℤ

unfoldable pub free_file_size_job : FileSizeJob → List Ptr
free_file_size_job obj = []

unfoldable pub file_size_job_worker :
    {K : Type 0} → Os K → FileSizeJob → System K → FileSizeJob × System K
unfolding perform store last_errno
file_size_job_worker os self s =
    let (r, s') = perform os (fstat self.fd) s in
    (
      record self {
        job = store r self.job;
        result = if ltb_ℤ (wrap32 r.ret) (pos 0) then self.result else r.stat.st_size;
      },
      s',
    )

unfoldable pub make_file_size_job : ℤ → ℤ → FileSizeJob
unfolding make_job
make_file_size_job result fd = record { job = make_job; fd = fd; result = result }

unfoldable pub get_file_size_result : FileSizeJob → ℤ
get_file_size_result job = job.result

-- `struct file_time_job`
pub record FileTimeJob : Type 0 where
  pub job : Job
  pub fd : ℤ
  pub out : Ptr

unfoldable pub free_file_time_job : FileTimeJob → List Ptr
free_file_time_job obj = obj.out ∷ []

unfoldable pub file_time_job_worker :
    {K : Type 0} → Os K → FileTimeJob → System K → FileTimeJob × System K
unfolding perform store last_errno
file_time_job_worker os self s =
    let (r, s') = perform os (fstat_into self.fd self.out) s in
    (record self { job = store r self.job }, s')

unfoldable pub make_file_time_job : ℤ → Ptr → FileTimeJob
unfolding make_job
make_file_time_job fd out = record { job = make_job; fd = fd; out = out }

-- `struct fsync_job`
pub record FsyncJob : Type 0 where
  pub job : Job
  pub fd : ℤ
  pub only_data : ℤ

unfoldable pub free_fsync_job : FsyncJob → List Ptr
free_fsync_job obj = []

unfoldable pub fsync_job_worker : {K : Type 0} → Os K → FsyncJob → System K → FsyncJob × System K
unfolding perform store last_errno
fsync_job_worker os self s =
    let (r, s') =
      perform os (if is_nonzero self.only_data then fdatasync self.fd else fsync self.fd) s in
    (record self { job = store r self.job }, s')

unfoldable pub make_fsync_job : ℤ → ℤ → FsyncJob
unfolding make_job
make_fsync_job fd only_data = record { job = make_job; fd = fd; only_data = only_data }

-- `struct flock_job`
pub record FlockJob : Type 0 where
  pub job : Job
  pub fd : ℤ
  pub exclusive : ℤ

unfoldable pub free_flock_job : FlockJob → List Ptr
free_flock_job obj = []

unfoldable pub flock_job_worker : {K : Type 0} → Os K → FlockJob → System K → FlockJob × System K
unfolding perform store last_errno
flock_job_worker os self s =
    let (r, s') = perform os (flock self.fd (is_nonzero self.exclusive)) s in
    (
      record self {
        job = if ltb_ℤ r.ret (pos 0) then record self.job { err = r.errno } else self.job;
      },
      s',
    )

unfoldable pub make_flock_job : ℤ → ℤ → FlockJob
unfolding make_job
make_flock_job fd exclusive = record { job = make_job; fd = fd; exclusive = exclusive }
