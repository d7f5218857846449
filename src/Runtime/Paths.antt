-- ===== src/Runtime/Paths.antt =====
-- The jobs that change what a path names: chmod, remove, access, rename, symlink, mkdir and rmdir
-- (.mooncakes/moonbitlang/async/src/internal/event_loop/thread_pool.c). The
-- free functions give the references that they release; what a maker leaves unset, as the allocator
-- gave it, is its first arguments.
use moonbit.Prelude.{List, [], ◌∷◌, not}
use moonbit.Prelude.Int.{ℤ}
use moonbit.Runtime.Calls.{
  Ptr, Os, System, AccessMode, perform, last_errno, is_nonzero, chmod, remove, access, renameat2,
  symlink, mkdir, rmdir,
}
use moonbit.Runtime.Job.{Job, make_job, store}

-- `struct chmod_job`
pub record ChmodJob : Type 0 where
  pub job : Job
  pub path : Ptr
  pub mode : ℤ

unfoldable pub free_chmod_job : ChmodJob → List Ptr
free_chmod_job obj = obj.path ∷ []

unfoldable pub chmod_job_worker : {K : Type 0} → Os K → ChmodJob → System K → ChmodJob × System K
unfolding perform store last_errno
chmod_job_worker os self s =
    let (r, s') = perform os (chmod self.path self.mode) s in
    (record self { job = store r self.job }, s')

unfoldable pub make_chmod_job : Ptr → ℤ → ChmodJob
unfolding make_job
make_chmod_job path mode = record { job = make_job; path = path; mode = mode }

-- `struct remove_job`
pub record RemoveJob : Type 0 where
  pub job : Job
  pub path : Ptr

unfoldable pub free_remove_job : RemoveJob → List Ptr
free_remove_job obj = obj.path ∷ []

unfoldable pub remove_job_worker : {K : Type 0} → Os K → RemoveJob → System K → RemoveJob × System K
unfolding perform store last_errno
remove_job_worker os self s =
    let (r, s') = perform os (remove self.path) s in (record self { job = store r self.job }, s')

unfoldable pub make_remove_job : Ptr → RemoveJob
unfolding make_job
make_remove_job path = record { job = make_job; path = path }

-- `struct access_job`
pub record AccessJob : Type 0 where
  pub job : Job
  pub path : Ptr
  pub amode : AccessMode

unfoldable pub free_access_job : AccessJob → List Ptr
free_access_job obj = obj.path ∷ []

unfoldable pub access_job_worker : {K : Type 0} → Os K → AccessJob → System K → AccessJob × System K
unfolding perform store last_errno
access_job_worker os self s =
    let (r, s') = perform os (access self.path self.amode) s in
    (record self { job = store r self.job }, s')

unfoldable pub make_access_job : Ptr → AccessMode → AccessJob
unfolding make_job
make_access_job path amode = record { job = make_job; path = path; amode = amode }

-- `struct rename_job`
pub record RenameJob : Type 0 where
  pub job : Job
  pub old_path : Ptr
  pub new_path : Ptr
  pub replace : ℤ

unfoldable pub free_rename_job : RenameJob → List Ptr
free_rename_job obj = obj.old_path ∷ obj.new_path ∷ []

unfoldable pub rename_job_worker : {K : Type 0} → Os K → RenameJob → System K → RenameJob × System K
unfolding perform store last_errno
rename_job_worker os self s =
    let (r, s') =
      perform os (renameat2 self.old_path self.new_path (not (is_nonzero self.replace))) s in
    (record self { job = store r self.job }, s')

unfoldable pub make_rename_job : Ptr → Ptr → ℤ → RenameJob
unfolding make_job
make_rename_job old_path new_path replace = record {
  job = make_job;
  old_path = old_path;
  new_path = new_path;
  replace = replace;
}

-- `struct symlink_job`
pub record SymlinkJob : Type 0 where
  pub job : Job
  pub target : Ptr
  pub path : Ptr

unfoldable pub free_symlink_job : SymlinkJob → List Ptr
free_symlink_job obj = obj.target ∷ obj.path ∷ []

unfoldable pub symlink_job_worker :
    {K : Type 0} → Os K → SymlinkJob → System K → SymlinkJob × System K
unfolding perform store last_errno
symlink_job_worker os self s =
    let (r, s') = perform os (symlink self.target self.path) s in
    (record self { job = store r self.job }, s')

unfoldable pub make_symlink_job : Ptr → Ptr → SymlinkJob
unfolding make_job
make_symlink_job target path = record { job = make_job; target = target; path = path }

-- `struct mkdir_job`
pub record MkdirJob : Type 0 where
  pub job : Job
  pub path : Ptr
  pub mode : ℤ

unfoldable pub free_mkdir_job : MkdirJob → List Ptr
free_mkdir_job obj = obj.path ∷ []

unfoldable pub mkdir_job_worker : {K : Type 0} → Os K → MkdirJob → System K → MkdirJob × System K
unfolding perform store last_errno
mkdir_job_worker os self s =
    let (r, s') = perform os (mkdir self.path self.mode) s in
    (record self { job = store r self.job }, s')

unfoldable pub make_mkdir_job : Ptr → ℤ → MkdirJob
unfolding make_job
make_mkdir_job path mode = record { job = make_job; path = path; mode = mode }

-- `struct rmdir_job`
pub record RmdirJob : Type 0 where
  pub job : Job
  pub path : Ptr

unfoldable pub free_rmdir_job : RmdirJob → List Ptr
free_rmdir_job obj = obj.path ∷ []

unfoldable pub rmdir_job_worker : {K : Type 0} → Os K → RmdirJob → System K → RmdirJob × System K
unfolding perform store last_errno
rmdir_job_worker os self s =
    let (r, s') = perform os (rmdir self.path) s in (record self { job = store r self.job }, s')

unfoldable pub make_rmdir_job : Ptr → RmdirJob
unfolding make_job
make_rmdir_job path = record { job = make_job; path = path }
