-- ===== src/Runtime/Job.antt =====
-- What all jobs share: the header `struct job`, and the kinds of files
-- (.mooncakes/moonbitlang/async/src/internal/event_loop/thread_pool.c, detect_file_kind.c). The
-- pointer to the worker is the constructor of the sum of the jobs in Jobs.
use moonbit.Prelude.{◌≡◌, refl, Bool, false, if◌then◌else◌, ap}
use moonbit.Prelude.Int.{ℤ, pos, negsuc, ltb_ℤ, wrap32, Fits32, wrap32_fits}
use moonbit.Runtime.Calls.{
  Stat, FileMode, s_ifreg, s_ifdir, s_iflnk, s_ifsock, s_ififo, s_ifblk, s_ifchr, s_ifother, Reply,
  Os, System, perform, fstat, eq_ℤ,
}

pub record Job : Type 0 where
  pub ret : ℤ
  pub err : ℤ

unfoldable pub job_get_ret : Job → ℤ
job_get_ret job = job.ret

unfoldable pub job_get_err : Job → ℤ
job_get_err job = job.err

unfoldable pub make_job : Job
make_job = record { ret = pos 0; err = pos 0 }

-- `job->ret = call(...); if (job->ret < 0) job->err = errno;`
unfoldable pub store : Reply → Job → Job
store r job =
    let ret = wrap32 r.ret in
    record { ret = ret; err = if ltb_ℤ ret (pos 0) then r.errno else job.err }

-- EINTR, on Linux
abbrev pub eintr : ℤ
eintr = pos 4

unfoldable pub errno_is_cancelled : ℤ → Bool
errno_is_cancelled err = eq_ℤ err eintr

unfoldable pub file_kind_of_mode : FileMode → ℤ
file_kind_of_mode s_ifreg = pos 1
file_kind_of_mode s_ifdir = pos 2
file_kind_of_mode s_iflnk = pos 3
file_kind_of_mode s_ifsock = pos 4
file_kind_of_mode s_ififo = pos 5
file_kind_of_mode s_ifblk = pos 6
file_kind_of_mode s_ifchr = pos 7
file_kind_of_mode s_ifother = pos 0

unfoldable pub file_kind_from_stat : Stat → ℤ
file_kind_from_stat stat = file_kind_of_mode stat.st_mode

unfoldable pub kind_of_fd : {K : Type 0} → Os K → ℤ → System K → ℤ × System K
unfolding perform
kind_of_fd os fd s =
    let (r, s') = perform os (fstat fd) s in
    (if ltb_ℤ r.ret (pos 0) then negsuc 0 else file_kind_from_stat r.stat, s')

mode-NotNegative : (m : FileMode) → ltb_ℤ (file_kind_of_mode m) (pos 0) ≡ false
unfolding file_kind_of_mode
mode-NotNegative s_ifreg = refl
mode-NotNegative s_ifdir = refl
mode-NotNegative s_iflnk = refl
mode-NotNegative s_ifsock = refl
mode-NotNegative s_ififo = refl
mode-NotNegative s_ifblk = refl
mode-NotNegative s_ifchr = refl
mode-NotNegative s_ifother = refl

-- A kind is not negative.
pub file_kind-NotNegative : (stat : Stat) → ltb_ℤ (file_kind_from_stat stat) (pos 0) ≡ false
unfolding file_kind_from_stat
file_kind-NotNegative stat = mode-NotNegative stat.st_mode

-- The error of a job whose only call is stored: that of the call if it failed.
pub store_err :
    (r : Reply) (job : Job)
    → Fits32 r.ret
    → (store r job).err ≡ (if ltb_ℤ r.ret (pos 0) then r.errno else job.err)
unfolding store
store_err r job fits =
    ap (λ x. if ltb_ℤ x (pos 0) then r.errno else job.err) (wrap32_fits r.ret fits)
