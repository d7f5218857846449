-- ===== src/Runtime/Open.antt =====
-- The job that opens a file
-- (.mooncakes/moonbitlang/async/src/internal/event_loop/thread_pool.c). The
-- free functions give the references that they release; what a maker leaves unset, as the allocator
-- gave it, is its first arguments.
use moonbit.Prelude.{List, [], ◌∷◌, ◌++◌, if◌then◌else◌, ℕ}
use moonbit.Prelude.Int.{ℤ, pos, ltb_ℤ}
use moonbit.Runtime.Calls.{
  Ptr, Stat, Os, System, OpenFlag, o_rdonly, o_wronly, o_rdwr, o_trunc, o_creat, o_excl, o_dsync,
  o_sync, o_append, o_cloexec, perform, is_nonzero, open_file, close, fstat,
}
use moonbit.Runtime.Job.{Job, make_job, file_kind_from_stat}

-- The entries of `access_flags`, `create_modes` and `sync_flags`, by their place in the table.
pub data OpenAccess : Type 0 where
  read_only write_only read_write none_of_them : OpenAccess

pub data CreateMode : Type 0 where
  open_existing truncate_existing open_or_create create_or_truncate create_new : CreateMode

pub data SyncMode : Type 0 where
  no_sync data_only full : SyncMode

unfoldable pub access_flags : OpenAccess → List OpenFlag
access_flags read_only = o_rdonly ∷ []
access_flags write_only = o_wronly ∷ []
access_flags read_write = o_rdwr ∷ []
access_flags none_of_them = o_rdonly ∷ []

unfoldable pub create_modes : CreateMode → List OpenFlag
create_modes open_existing = []
create_modes truncate_existing = o_trunc ∷ []
create_modes open_or_create = o_creat ∷ []
create_modes create_or_truncate = o_creat ∷ o_trunc ∷ []
create_modes create_new = o_creat ∷ o_excl ∷ []

unfoldable pub sync_flags : SyncMode → List OpenFlag
sync_flags no_sync = []
sync_flags data_only = o_dsync ∷ []
sync_flags full = o_sync ∷ []

-- `struct open_job`
pub record OpenJob : Type 0 where
  pub job : Job
  pub filename : Ptr
  pub access : OpenAccess
  pub create_mode : CreateMode
  pub append : ℤ
  pub sync : SyncMode
  pub mode : ℤ
  pub result : ℤ
  pub stat : Stat

unfoldable pub free_open_job : OpenJob → List Ptr
free_open_job obj = obj.filename ∷ []

unfoldable pub open_flags : OpenJob → List OpenFlag
unfolding access_flags create_modes sync_flags
open_flags self =
    access_flags self.access
    ++ sync_flags self.sync
    ++ create_modes self.create_mode
    ++ (if is_nonzero self.append then o_append ∷ [] else [])
    ++ o_cloexec ∷ []

-- After `open`: `fstat`, and `close` where that fails.
unfoldable pub stat_opened : {K : Type 0} → Os K → OpenJob → System K → OpenJob × System K
unfolding perform
stat_opened os self s =
    let (r, s') = perform os (fstat self.result) s in
    let (_, s'') = perform os (close self.result) s' in
    if ltb_ℤ r.ret (pos 0)
    then (record self { job = record self.job { err = r.errno } }, s'')
    else (record self { stat = r.stat }, s')

unfoldable pub open_job_worker : {K : Type 0} → Os K → OpenJob → System K → OpenJob × System K
unfolding stat_opened perform open_flags
open_job_worker os self s =
    let (r, s') = perform os (open_file self.filename (open_flags self) self.mode) s in
    let opened = stat_opened os (record self { result = r.ret }) s' in
    if ltb_ℤ r.ret (pos 0)
    then (record self { job = record self.job { err = r.errno }; result = r.ret }, s')
    else opened

unfoldable pub open_job_get_fd : OpenJob → ℤ
open_job_get_fd job = job.result

unfoldable pub open_job_get_kind : OpenJob → ℤ
unfolding file_kind_from_stat
open_job_get_kind job = file_kind_from_stat job.stat

unfoldable pub open_job_get_dev_id : OpenJob → ℕ
open_job_get_dev_id job = job.stat.st_dev

unfoldable pub open_job_get_file_id : OpenJob → ℕ
open_job_get_file_id job = job.stat.st_ino

unfoldable pub make_open_job : ℤ → Stat → Ptr → OpenAccess → CreateMode → ℤ → SyncMode → ℤ → OpenJob
unfolding make_job
make_open_job result stat filename access create_mode append sync mode = record {
  job = make_job;
  filename = filename;
  access = access;
  create_mode = create_mode;
  append = append;
  sync = sync;
  mode = mode;
  result = result;
  stat = stat;
}
