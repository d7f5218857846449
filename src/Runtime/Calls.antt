-- ===== src/Runtime/Calls.antt =====
-- What the jobs of the thread pool ask of the operating system, on Linux
-- (.mooncakes/moonbitlang/async/src/internal/event_loop/thread_pool.c). The operating system is a
-- parameter: a function from a call and the state of the kernel to a reply and the state after it.
-- A list of flags stands for their `|`.
use moonbit.Prelude.{
  ℕ, suc, Bool, true, Option, List, [], ◌∷◌, not, ◌==◌, if◌then◌else◌, ◌/◌, ◌%◌, ◌-◌, ◌&&◌,
}
use moonbit.Prelude.Int.{ℤ, pos, negsuc, ltb_ℤ}

-- An address in the memory of the process, 0 for NULL.
abbrev pub Ptr : Type 0
Ptr = ℕ

-- `st_mode & S_IFMT`
pub data FileMode : Type 0 where
  s_ifreg s_ifdir s_iflnk s_ifsock s_ififo s_ifblk s_ifchr s_ifother : FileMode

-- The fields of `struct stat` that are read.
pub record Stat : Type 0 where
  pub st_mode : FileMode
  pub st_dev : ℕ
  pub st_ino : ℕ
  pub st_size : ℤ

pub data OpenFlag : Type 0 where
  o_rdonly o_wronly o_rdwr o_trunc o_creat o_excl o_dsync o_sync o_append o_cloexec : OpenFlag

pub data AccessMode : Type 0 where
  f_ok r_ok w_ok x_ok : AccessMode

pub data WatchFlag : Type 0 where
  in_create in_moved_from in_moved_to in_delete in_modify : WatchFlag

-- The calls, with the arguments that the jobs choose. `read fd buf offset len` reads into
-- `buf + offset`; `fstat` fills in a structure of the caller, which comes back in the reply, and the
-- calls ending in `_into` write to an address; `bind` takes the length of the array at its address; `rewind` is `lseek(fd, 0, SEEK_SET)`; `fstatat none` is
-- relative to `AT_FDCWD`, its last argument says whether links are followed; `flock fd exclusive`;
-- `renameat2 from to noreplace`.
pub data Call : Type 0 where
  nanosleep : ℤ → ℤ → Call
  read : ℤ → Ptr → ℤ → ℤ → Call
  pread : ℤ → Ptr → ℤ → ℤ → ℤ → Call
  write : ℤ → Ptr → ℤ → ℤ → Call
  pwrite : ℤ → Ptr → ℤ → ℤ → ℤ → Call
  open_file : Ptr → List OpenFlag → ℤ → Call
  close : ℤ → Call
  fstat : ℤ → Call
  fstat_into : ℤ → Ptr → Call
  stat_into : Ptr → Ptr → Call
  lstat_into : Ptr → Ptr → Call
  fstatat : Option ℤ → Ptr → Bool → Call
  chmod : Ptr → ℤ → Call
  fdatasync : ℤ → Call
  fsync : ℤ → Call
  flock : ℤ → Bool → Call
  remove : Ptr → Call
  access : Ptr → AccessMode → Call
  renameat2 : Ptr → Ptr → Bool → Call
  symlink : Ptr → Ptr → Call
  mkdir : Ptr → ℤ → Call
  rmdir : Ptr → Call
  rewind : ℤ → Call
  getdents64 : ℤ → Ptr → ℤ → Call
  realpath : Ptr → Call
  waitpid : ℤ → Call
  getaddrinfo : Ptr → Call
  bind : ℤ → Ptr → Call
  inotify_add_watch : ℤ → Ptr → List WatchFlag → Call

-- What a call gives back: its result, `errno` after it, the structure, the pointer and the status of
-- those calls that have one.
pub record Reply : Type 0 where
  pub ret : ℤ
  pub errno : ℤ
  pub stat : Stat
  pub pointer : Ptr
  pub status : ℕ

abbrev pub Os : Type 0 → Type 0
Os K = Call → K → Reply × K

-- The calls made so far, the latest first, beside the kernel.
pub record System (K : Type 0) : Type 0 where
  pub kernel : K
  pub calls : List (Call × Reply)

unfoldable pub perform : {K : Type 0} → Os K → Call → System K → Reply × System K
perform os c s = let (r, k) = os c s.kernel in (r, record { kernel = k; calls = (c, r) ∷ s.calls })

-- `errno`, which the latest call has set.
unfoldable pub last_errno : {K : Type 0} → System K → ℤ
last_errno s = elim s.calls [ [] ↦ pos 0 | c ∷ _ ↦ c.1.errno ]

unfoldable pub is_nonzero : ℤ → Bool
is_nonzero (pos n) = not (n == 0)
is_nonzero (negsuc n) = true

unfoldable pub eq_ℤ : ℤ → ℤ → Bool
eq_ℤ a b = not (ltb_ℤ a b) && not (ltb_ℤ b a)

-- Division of C, which truncates towards zero.
unfoldable pub quot : ℤ → ℕ → ℤ
quot (pos n) d = pos (n / d)
quot (negsuc n) d = if suc n / d == 0 then pos 0 else negsuc (suc n / d - 1)

unfoldable pub rem : ℤ → ℕ → ℤ
rem (pos n) d = pos (n % d)
rem (negsuc n) d = if suc n % d == 0 then pos 0 else negsuc (suc n % d - 1)
