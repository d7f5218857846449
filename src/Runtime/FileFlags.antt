-- ===== src/Runtime/FileFlags.antt =====
-- Flags of file descriptors (.mooncakes/moonbitlang/async/src/internal/fd_util/stub.c), on Linux. The
-- kernel is a parameter: `fcntl` with its four commands, and `pipe`.
pub mod Set
use moonbit.Prelude.{
  ℕ, ◌≡◌, refl, ap, sym, ◌∙◌, Bool, true, false, not, ◌==◌, if◌then◌else◌, Bool-cases, inl, inr,
  Option, none, some, arith,
}
use moonbit.Prelude.Int.{ℤ, pos, negsuc, ltb_ℤ}

-- The flags of an open file: O_NONBLOCK, and the others.
pub record StatusFlags : Type 0 where
  pub o_nonblock : Bool
  pub o_others : ℕ

-- The flags of a descriptor: FD_CLOEXEC, and the others.
pub record DescriptorFlags : Type 0 where
  pub fd_cloexec : Bool
  pub fd_others : ℕ

-- `getfl` and `getfd` give `none` for a negative result; `setfl` and `setfd` whether the result is not
-- negative; `pipe` the two ends.
pub record FcntlKernel (S : Type 0) : Type 0 where
  pub getfl : S → ℕ → Option StatusFlags
  pub setfl : ℕ → StatusFlags → S → Bool × S
  pub getfd : S → ℕ → Option DescriptorFlags
  pub setfd : ℕ → DescriptorFlags → S → Bool × S
  pub pipe : S → Option (ℕ × ℕ) × S

-- `moonbitlang_async_fd_is_valid`
unfoldable pub fd_is_valid : ℤ → Bool
fd_is_valid fd = ltb_ℤ fd (pos 0)

unfoldable pub fd_is_nonblocking : {S : Type 0} → FcntlKernel S → ℕ → S → ℤ
fd_is_nonblocking K fd s = elim (K.getfl s fd) [
  | none ↦ negsuc 0
  | some flags ↦ if flags.o_nonblock then pos 1 else pos 0
]

-- What a call that sets flags answers.
unfoldable pub answered : {S : Type 0} → Bool × S → ℤ × S
answered (true, s) = (pos 0, s)
answered (false, s) = (negsuc 0, s)

-- Where the flags are not as wanted they are set.
unfoldable pub with_status :
    {S : Type 0} → FcntlKernel S → Bool → ℕ → S → Option StatusFlags → ℤ × S
unfolding answered
with_status K wanted fd s none = (negsuc 0, s)
with_status K wanted fd s (some flags) =
    let set = answered (K.setfl fd (record flags { o_nonblock = wanted }) s) in
    if wanted
    then if flags.o_nonblock then (pos 0, s) else set
    else if flags.o_nonblock
    then set
    else (pos 0, s)

unfoldable pub set_blocking : {S : Type 0} → FcntlKernel S → ℕ → S → ℤ × S
unfolding with_status
set_blocking K fd s = with_status K false fd s (K.getfl s fd)

unfoldable pub set_nonblocking : {S : Type 0} → FcntlKernel S → ℕ → S → ℤ × S
unfolding with_status
set_nonblocking K fd s = with_status K true fd s (K.getfl s fd)

unfoldable pub with_cloexec : {S : Type 0} → FcntlKernel S → ℕ → S → Option DescriptorFlags → ℤ × S
unfolding answered
with_cloexec K fd s none = (negsuc 0, s)
with_cloexec K fd s (some flags) =
    if flags.fd_cloexec
    then (pos 0, s)
    else answered (K.setfd fd (record flags { fd_cloexec = true }) s)

unfoldable pub set_cloexec : {S : Type 0} → FcntlKernel S → ℕ → S → ℤ × S
unfolding with_cloexec
set_cloexec K fd s = with_cloexec K fd s (K.getfd s fd)

-- The loop over the ends of the pipe, after each end.
unfoldable pub after_second : {S : Type 0} → ℤ × S → ℤ × S
after_second (pos n, s) = (pos 0, s)
after_second (negsuc n, s) = (negsuc 0, s)

unfoldable pub after_first : {S : Type 0} → FcntlKernel S → ℕ → ℤ × S → ℤ × S
unfolding set_cloexec after_second
after_first K w (pos n, s) = after_second (set_cloexec K w s)
after_first K w (negsuc n, s) = (negsuc 0, s)

unfoldable pub close_both_on_exec : {S : Type 0} → FcntlKernel S → ℕ → ℕ → S → ℤ × S
unfolding set_cloexec after_first
close_both_on_exec K r w s = after_first K w (set_cloexec K r s)

unfoldable pub on_pipe : {S : Type 0} → FcntlKernel S → Option (ℕ × ℕ) × S → ℤ × Option (ℕ × ℕ) × S
unfolding close_both_on_exec
on_pipe K (none, s) = (negsuc 0, none, s)
on_pipe K (some (r, w), s) = let (ret, s') = close_both_on_exec K r w s in (ret, some (r, w), s')

-- `moonbitlang_async_pipe`, with the ends that are left open.
unfoldable pub pipe : {S : Type 0} → FcntlKernel S → S → ℤ × Option (ℕ × ℕ) × S
unfolding on_pipe
pipe K s = on_pipe K (K.pipe s)
