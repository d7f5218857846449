-- ===== src/Runtime/Jobs.antt =====
-- The sum of the jobs, in place of the pointer to the worker in `struct job`
-- (.mooncakes/moonbitlang/async/src/internal/event_loop/thread_pool.c).
use moonbit.Prelude.{List, []}
use moonbit.Prelude.Int.{pos}
use moonbit.Runtime.Calls.{Ptr, Os, System}
use moonbit.Runtime.Job.{Job}
use moonbit.Runtime.Files.{
  ReadJob, read_job_worker, free_read_job, WriteJob, write_job_worker, free_write_job, KindOfFdJob,
  kind_of_fd_job_worker, free_kind_of_fd_job, FileSizeJob, file_size_job_worker, free_file_size_job,
  FileTimeJob, file_time_job_worker, free_file_time_job, FsyncJob, fsync_job_worker, free_fsync_job,
  FlockJob, flock_job_worker, free_flock_job,
}
use moonbit.Runtime.Open.{OpenJob, open_job_worker, free_open_job}
use moonbit.Runtime.Paths.{
  ChmodJob, chmod_job_worker, free_chmod_job, RemoveJob, remove_job_worker, free_remove_job,
  AccessJob, access_job_worker, free_access_job, RenameJob, rename_job_worker, free_rename_job,
  SymlinkJob, symlink_job_worker, free_symlink_job, MkdirJob, mkdir_job_worker, free_mkdir_job,
  RmdirJob, rmdir_job_worker, free_rmdir_job,
}
use moonbit.Runtime.Lookup.{
  FileKindByPathJob, file_kind_by_path_job_worker, free_file_kind_by_path_job, FileTimeByPathJob,
  file_time_by_path_job_worker, free_file_time_by_path_job, ReaddirJob, readdir_job_worker,
  free_readdir_job, RealpathJob, realpath_job_worker, free_realpath_job,
}
use moonbit.Runtime.Processes.{
  SleepJob, sleep_job_worker, free_sleep_job, WaitForProcessJob, wait_for_process_job_worker,
  free_wait_for_process_job, BindJob, bind_job_worker, free_bind_job, InotifyAddWatchJob,
  inotify_add_watch_job_worker, free_inotify_add_watch_job,
}

pub data AnyJob : Type 0 where
  sleep_job : SleepJob → AnyJob
  read_job : ReadJob → AnyJob
  write_job : WriteJob → AnyJob
  open_job : OpenJob → AnyJob
  kind_of_fd_job : KindOfFdJob → AnyJob
  file_kind_by_path_job : FileKindByPathJob → AnyJob
  file_size_job : FileSizeJob → AnyJob
  file_time_job : FileTimeJob → AnyJob
  file_time_by_path_job : FileTimeByPathJob → AnyJob
  chmod_job : ChmodJob → AnyJob
  fsync_job : FsyncJob → AnyJob
  flock_job : FlockJob → AnyJob
  remove_job : RemoveJob → AnyJob
  access_job : AccessJob → AnyJob
  rename_job : RenameJob → AnyJob
  symlink_job : SymlinkJob → AnyJob
  mkdir_job : MkdirJob → AnyJob
  rmdir_job : RmdirJob → AnyJob
  readdir_job : ReaddirJob → AnyJob
  realpath_job : RealpathJob → AnyJob
  wait_for_process_job : WaitForProcessJob → AnyJob
  bind_job : BindJob → AnyJob
  inotify_add_watch_job : InotifyAddWatchJob → AnyJob

unfoldable pub header : AnyJob → Job
header (sleep_job j) = j.job
header (read_job j) = j.job
header (write_job j) = j.job
header (open_job j) = j.job
header (kind_of_fd_job j) = j.job
header (file_kind_by_path_job j) = j.job
header (file_size_job j) = j.job
header (file_time_job j) = j.job
header (file_time_by_path_job j) = j.job
header (chmod_job j) = j.job
header (fsync_job j) = j.job
header (flock_job j) = j.job
header (remove_job j) = j.job
header (access_job j) = j.job
header (rename_job j) = j.job
header (symlink_job j) = j.job
header (mkdir_job j) = j.job
header (rmdir_job j) = j.job
header (readdir_job j) = j.job
header (realpath_job j) = j.job
header (wait_for_process_job j) = j.job
header (bind_job j) = j.job
header (inotify_add_watch_job j) = j.job

-- What frees the object of a job.
unfoldable pub free_job : AnyJob → List Ptr
unfolding free_sleep_job free_read_job free_write_job free_open_job free_kind_of_fd_job
    free_file_kind_by_path_job free_file_size_job free_file_time_job free_file_time_by_path_job
    free_chmod_job free_fsync_job free_flock_job free_remove_job free_access_job free_rename_job
    free_symlink_job free_mkdir_job free_rmdir_job free_readdir_job free_realpath_job
    free_wait_for_process_job free_bind_job free_inotify_add_watch_job
free_job (sleep_job j) = free_sleep_job j
free_job (read_job j) = free_read_job j
free_job (write_job j) = free_write_job j
free_job (open_job j) = free_open_job j
free_job (kind_of_fd_job j) = free_kind_of_fd_job j
free_job (file_kind_by_path_job j) = free_file_kind_by_path_job j
free_job (file_size_job j) = free_file_size_job j
free_job (file_time_job j) = free_file_time_job j
free_job (file_time_by_path_job j) = free_file_time_by_path_job j
free_job (chmod_job j) = free_chmod_job j
free_job (fsync_job j) = free_fsync_job j
free_job (flock_job j) = free_flock_job j
free_job (remove_job j) = free_remove_job j
free_job (access_job j) = free_access_job j
free_job (rename_job j) = free_rename_job j
free_job (symlink_job j) = free_symlink_job j
free_job (mkdir_job j) = free_mkdir_job j
free_job (rmdir_job j) = free_rmdir_job j
free_job (readdir_job j) = free_readdir_job j
free_job (realpath_job j) = free_realpath_job j
free_job (wait_for_process_job j) = free_wait_for_process_job j
free_job (bind_job j) = free_bind_job j
free_job (inotify_add_watch_job j) = free_inotify_add_watch_job j

-- `job->worker(job)`
unfoldable pub run_worker : {K : Type 0} → Os K → AnyJob → System K → AnyJob × System K
unfolding sleep_job_worker read_job_worker write_job_worker open_job_worker kind_of_fd_job_worker
    file_kind_by_path_job_worker file_size_job_worker file_time_job_worker
    file_time_by_path_job_worker chmod_job_worker fsync_job_worker flock_job_worker
    remove_job_worker access_job_worker rename_job_worker symlink_job_worker mkdir_job_worker
    rmdir_job_worker readdir_job_worker realpath_job_worker wait_for_process_job_worker
    bind_job_worker inotify_add_watch_job_worker
run_worker os (sleep_job j) s = let (j', s') = sleep_job_worker os j s in (sleep_job j', s')
run_worker os (read_job j) s = let (j', s') = read_job_worker os j s in (read_job j', s')
run_worker os (write_job j) s = let (j', s') = write_job_worker os j s in (write_job j', s')
run_worker os (open_job j) s = let (j', s') = open_job_worker os j s in (open_job j', s')
run_worker os (kind_of_fd_job j) s =
    let (j', s') = kind_of_fd_job_worker os j s in (kind_of_fd_job j', s')
run_worker os (file_kind_by_path_job j) s =
    let (j', s') = file_kind_by_path_job_worker os j s in (file_kind_by_path_job j', s')
run_worker os (file_size_job j) s =
    let (j', s') = file_size_job_worker os j s in (file_size_job j', s')
run_worker os (file_time_job j) s =
    let (j', s') = file_time_job_worker os j s in (file_time_job j', s')
run_worker os (file_time_by_path_job j) s =
    let (j', s') = file_time_by_path_job_worker os j s in (file_time_by_path_job j', s')
run_worker os (chmod_job j) s = let (j', s') = chmod_job_worker os j s in (chmod_job j', s')
run_worker os (fsync_job j) s = let (j', s') = fsync_job_worker os j s in (fsync_job j', s')
run_worker os (flock_job j) s = let (j', s') = flock_job_worker os j s in (flock_job j', s')
run_worker os (remove_job j) s = let (j', s') = remove_job_worker os j s in (remove_job j', s')
run_worker os (access_job j) s = let (j', s') = access_job_worker os j s in (access_job j', s')
run_worker os (rename_job j) s = let (j', s') = rename_job_worker os j s in (rename_job j', s')
run_worker os (symlink_job j) s = let (j', s') = symlink_job_worker os j s in (symlink_job j', s')
run_worker os (mkdir_job j) s = let (j', s') = mkdir_job_worker os j s in (mkdir_job j', s')
run_worker os (rmdir_job j) s = let (j', s') = rmdir_job_worker os j s in (rmdir_job j', s')
run_worker os (readdir_job j) s = let (j', s') = readdir_job_worker os j s in (readdir_job j', s')
run_worker os (realpath_job j) s =
    let (j', s') = realpath_job_worker os j s in (realpath_job j', s')
run_worker os (wait_for_process_job j) s =
    let (j', s') = wait_for_process_job_worker os j s in (wait_for_process_job j', s')
run_worker os (bind_job j) s = let (j', s') = bind_job_worker os j s in (bind_job j', s')
run_worker os (inotify_add_watch_job j) s =
    let (j', s') = inotify_add_watch_job_worker os j s in (inotify_add_watch_job j', s')

-- `job->ret = 0; job->err = 0;`
unfoldable pub clear : AnyJob → AnyJob
clear (sleep_job j) = sleep_job (record j { job = record { ret = pos 0; err = pos 0 } })
clear (read_job j) = read_job (record j { job = record { ret = pos 0; err = pos 0 } })
clear (write_job j) = write_job (record j { job = record { ret = pos 0; err = pos 0 } })
clear (open_job j) = open_job (record j { job = record { ret = pos 0; err = pos 0 } })
clear (kind_of_fd_job j) = kind_of_fd_job (record j { job = record { ret = pos 0; err = pos 0 } })
clear (file_kind_by_path_job j) =
    file_kind_by_path_job (record j { job = record { ret = pos 0; err = pos 0 } })
clear (file_size_job j) = file_size_job (record j { job = record { ret = pos 0; err = pos 0 } })
clear (file_time_job j) = file_time_job (record j { job = record { ret = pos 0; err = pos 0 } })
clear (file_time_by_path_job j) =
    file_time_by_path_job (record j { job = record { ret = pos 0; err = pos 0 } })
clear (chmod_job j) = chmod_job (record j { job = record { ret = pos 0; err = pos 0 } })
clear (fsync_job j) = fsync_job (record j { job = record { ret = pos 0; err = pos 0 } })
clear (flock_job j) = flock_job (record j { job = record { ret = pos 0; err = pos 0 } })
clear (remove_job j) = remove_job (record j { job = record { ret = pos 0; err = pos 0 } })
clear (access_job j) = access_job (record j { job = record { ret = pos 0; err = pos 0 } })
clear (rename_job j) = rename_job (record j { job = record { ret = pos 0; err = pos 0 } })
clear (symlink_job j) = symlink_job (record j { job = record { ret = pos 0; err = pos 0 } })
clear (mkdir_job j) = mkdir_job (record j { job = record { ret = pos 0; err = pos 0 } })
clear (rmdir_job j) = rmdir_job (record j { job = record { ret = pos 0; err = pos 0 } })
clear (readdir_job j) = readdir_job (record j { job = record { ret = pos 0; err = pos 0 } })
clear (realpath_job j) = realpath_job (record j { job = record { ret = pos 0; err = pos 0 } })
clear (wait_for_process_job j) =
    wait_for_process_job (record j { job = record { ret = pos 0; err = pos 0 } })
clear (bind_job j) = bind_job (record j { job = record { ret = pos 0; err = pos 0 } })
clear (inotify_add_watch_job j) =
    inotify_add_watch_job (record j { job = record { ret = pos 0; err = pos 0 } })

-- One round of the loop of a worker: the header is cleared, then the worker runs.
unfoldable pub run_job : {K : Type 0} → Os K → AnyJob → K → AnyJob × System K
unfolding clear run_worker
run_job os j k = run_worker os (clear j) (record { kernel = k; calls = [] })
