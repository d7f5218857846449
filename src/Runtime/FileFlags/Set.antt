-- ===== src/Runtime/FileFlags/Set.antt =====
-- What setting the flags of descriptors leaves behind
-- (.mooncakes/moonbitlang/async/src/internal/fd_util/stub.c).
use moonbit.Prelude.{
  eq_self, ℕ, ◌≡◌, refl, ap, sym, ◌∙◌, Bool, true, false, ◌&&◌, ◌==◌, if◌then◌else◌, Bool-cases,
  inl, inr, Option, none, some, arith,
}
use mathlib.Core.Path.{subst}
use moonbit.Prelude.Int.{ℤ, pos, negsuc, ltb_ℤ}
use moonbit.Runtime.FileFlags.{
  after_second, after_first, StatusFlags, DescriptorFlags, FcntlKernel, fd_is_nonblocking, answered,
  with_status, set_blocking, set_nonblocking, with_cloexec, set_cloexec, close_both_on_exec,
  on_pipe, pipe,
}

-- The manual of fcntl: flags that were set are got, a command that fails sets none, and the flags of
-- a descriptor are its own.
pub record FcntlLaws {S : Type 0} (K : FcntlKernel S) : Type 0 where
  pub setfl_getfl :
      (fd : ℕ) (flags : StatusFlags) (s : S)
      → K.getfl (K.setfl fd flags s).1 fd
        ≡ (if (K.setfl fd flags s).0 then some flags else K.getfl s fd)
  pub setfd_getfd :
      (fd : ℕ) (flags : DescriptorFlags) (s : S) (fd' : ℕ)
      → K.getfd (K.setfd fd flags s).1 fd'
        ≡ (if (K.setfd fd flags s).0 && fd' == fd then some flags else K.getfd s fd')

abbrev pub cloexec_of : Option DescriptorFlags → Bool
cloexec_of none = false
cloexec_of (some flags) = flags.fd_cloexec

module _ {S : Type 0} (K : FcntlKernel S) (laws : FcntlLaws K) where
  -- Success is that of the command.
  answered_zero : (r : Bool × S) → (answered r).0 ≡ pos 0 → (r.0 ≡ true) × ((answered r).1 ≡ r.1)
  unfolding answered
  answered_zero (true, s) h = (refl, refl)
  answered_zero (false, s) h = absurd cc

  answered_done :
      (r : Bool × S) → ltb_ℤ (answered r).0 (pos 0) ≡ false → (r.0 ≡ true) × ((answered r).1 ≡ r.1)
  unfolding answered
  answered_done (true, s) h = (refl, refl)
  answered_done (false, s) h = absurd cc

  answered_state : (r : Bool × S) → (answered r).1 ≡ r.1
  unfolding answered
  answered_state (true, s) = refl
  answered_state (false, s) = refl

  -- A file that blocks is made not to block.
  nonblocking_set :
      (fd : ℕ) (s : S) (flags : StatusFlags)
      → K.getfl s fd ≡ some flags
      → flags.o_nonblock ≡ false
      → (set_nonblocking K fd s).0 ≡ pos 0
      → K.getfl (set_nonblocking K fd s).1 fd ≡ some (record flags { o_nonblock = true })
  unfolding set_nonblocking with_status
  nonblocking_set fd s flags known blocking done =
      let flags' : StatusFlags = record flags { o_nonblock = true } in
      let r = K.setfl fd flags' s in
      let start : set_nonblocking K fd s ≡ answered r =
        ap (λ f. with_status K true fd s f) known ∙ rw blocking refl in
      let (ok, same) = answered_zero r (sym (ap (λ x. x.0) start) ∙ done) in
      ap (λ x. K.getfl x.1 fd) start
      ∙ ap (λ x. K.getfl x fd) same
      ∙ laws.setfl_getfl fd flags' s
      ∙ rw ok refl

  blocking_set :
      (fd : ℕ) (s : S) (flags : StatusFlags)
      → K.getfl s fd ≡ some flags
      → flags.o_nonblock ≡ true
      → (set_blocking K fd s).0 ≡ pos 0
      → K.getfl (set_blocking K fd s).1 fd ≡ some (record flags { o_nonblock = false })
  unfolding set_blocking with_status
  blocking_set fd s flags known nonblocking done =
      let flags' : StatusFlags = record flags { o_nonblock = false } in
      let r = K.setfl fd flags' s in
      let start : set_blocking K fd s ≡ answered r =
        ap (λ f. with_status K false fd s f) known ∙ rw nonblocking refl in
      let (ok, same) = answered_zero r (sym (ap (λ x. x.0) start) ∙ done) in
      ap (λ x. K.getfl x.1 fd) start
      ∙ ap (λ x. K.getfl x fd) same
      ∙ laws.setfl_getfl fd flags' s
      ∙ rw ok refl

  answer_known :
      (fd : ℕ) (s : S) (flags : StatusFlags)
      → K.getfl s fd ≡ some flags
      → fd_is_nonblocking K fd s ≡ (if flags.o_nonblock then pos 1 else pos 0)
  unfolding fd_is_nonblocking
  answer_known fd s flags known = rw (known, fd_is_nonblocking) refl

  -- A file that blocks, made not to block and to block again, both without an error: in between it is
  -- told not to block and making it so again changes nothing, and afterwards it has its flags from
  -- before.
  set_blocking-set_nonblocking :
      (fd : ℕ) (s : S) (flags : StatusFlags)
      → K.getfl s fd ≡ some flags
      → flags.o_nonblock ≡ false
      → (set_nonblocking K fd s).0 ≡ pos 0
      → (set_blocking K fd (set_nonblocking K fd s).1).0 ≡ pos 0
      → let between = (set_nonblocking K fd s).1 in
        let after = (set_blocking K fd between).1 in
        (fd_is_nonblocking K fd between ≡ pos 1)
        × (set_nonblocking K fd between ≡ (pos 0, between))
        × (K.getfl after fd ≡ some flags)
  unfolding set_nonblocking with_status
  set_blocking-set_nonblocking fd s flags known blocking done again =
      let between = (set_nonblocking K fd s).1 in
      let flags' : StatusFlags = record flags { o_nonblock = true } in
      let set = nonblocking_set fd s flags known blocking done in
      (
        answer_known fd between flags' set,
        ap (λ f. with_status K true fd between f) set,
        blocking_set fd between flags' set refl again
            ∙ ap (λ b. some (record flags { o_nonblock = b })) (sym blocking),
      )

  abbrev closes : S → ℕ → Bool
  closes s fd = cloexec_of (K.getfd s fd)

  setfd_closes :
      (fd : ℕ) (flags : DescriptorFlags) (s : S) (fd' : ℕ) (ok : Bool)
      → flags.fd_cloexec ≡ true
      → closes s fd' ≡ true
      → cloexec_of (if ok then some flags else K.getfd s fd') ≡ true
  setfd_closes fd flags s fd' true set h = set
  setfd_closes fd flags s fd' false set h = h

  -- Nothing that is closed on exec ceases to be.
  cloexec_keeps :
      (fd : ℕ) (s : S) (fd' : ℕ) (o : Option DescriptorFlags)
      → closes s fd' ≡ true
      → closes (with_cloexec K fd s o).1 fd' ≡ true
  unfolding with_cloexec
  cloexec_keeps fd s fd' none h = h
  cloexec_keeps fd s fd' (some flags) h = elim (Bool-cases flags.fd_cloexec) [
    | inl set ↦ rw set h
    | inr unset ↦
        let flags' : DescriptorFlags = record flags { fd_cloexec = true } in
        let r = K.setfd fd flags' s in
        rw (unset, answered_state r, laws.setfd_getfd fd flags' s fd')
          (setfd_closes fd flags' s fd' (r.0 && fd' == fd) refl h)
  ]

  cloexec_sets :
      (fd : ℕ) (s : S) (o : Option DescriptorFlags)
      → K.getfd s fd ≡ o
      → ltb_ℤ (with_cloexec K fd s o).0 (pos 0) ≡ false
      → closes (with_cloexec K fd s o).1 fd ≡ true
  unfolding with_cloexec
  cloexec_sets fd s none known done = absurd cc
  cloexec_sets fd s (some flags) known done = elim (Bool-cases flags.fd_cloexec) [
    | inl set ↦ rw (set, known) set
    | inr unset ↦
        let flags' : DescriptorFlags = record flags { fd_cloexec = true } in
        let r = K.setfd fd flags' s in
        let (ok, same) = answered_done r (
          subst (λ b. ltb_ℤ (if b then (pos 0, s) else answered r).0 (pos 0) ≡ false) unset done) in
        rw (unset, same, laws.setfd_getfd fd flags' s fd, ok, eq_self fd) refl
  ]

  second_done :
      (x : ℤ × S)
      → (after_second x).0 ≡ pos 0
      → (ltb_ℤ x.0 (pos 0) ≡ false) × ((after_second x).1 ≡ x.1)
  unfolding after_second
  second_done (pos n, s) done = (ground arith, refl)
  second_done (negsuc n, s) done = absurd cc

  first_done :
      (w : ℕ) (x : ℤ × S)
      → (after_first K w x).0 ≡ pos 0
      → (ltb_ℤ x.0 (pos 0) ≡ false)
        × ltb_ℤ (set_cloexec K w x.1).0 (pos 0) ≡ false
        × ((after_first K w x).1 ≡ (set_cloexec K w x.1).1)
  unfolding after_first
  first_done w (pos n, s) done =
      let (ok, same) = second_done (set_cloexec K w s) done in (ground arith, ok, same)
  first_done w (negsuc n, s) done = absurd cc

  -- Where both ends of a pipe are set up without an error, both are closed on exec.
  both_closed :
      (r w : ℕ) (s : S)
      → (close_both_on_exec K r w s).0 ≡ pos 0
      → let after = (close_both_on_exec K r w s).1 in
        (closes after r ≡ true) × (closes after w ≡ true)
  unfolding close_both_on_exec set_cloexec
  both_closed r w s done =
      let first = with_cloexec K r s (K.getfd s r) in
      let (ok, ok', same) = first_done w first done in
      (
        ap (λ x. closes x r) same
            ∙ cloexec_keeps w first.1 r (K.getfd first.1 w)
                (cloexec_sets r s (K.getfd s r) refl ok),
        ap (λ x. closes x w) same ∙ cloexec_sets w first.1 (K.getfd first.1 w) refl ok',
      )

  -- What a pipe is on success: two ends that are closed on exec.
  abbrev ClosedPipe : ℤ × Option (ℕ × ℕ) × S → Type 0
  ClosedPipe (ret, none, s) = ⊥
  ClosedPipe (ret, some (r, w), s) = (closes s r ≡ true) × (closes s w ≡ true)

  on_pipe-ClosedPipe : (x : Option (ℕ × ℕ) × S) → (on_pipe K x).0 ≡ pos 0 → ClosedPipe (on_pipe K x)
  unfolding on_pipe
  on_pipe-ClosedPipe (none, s) done = absurd cc
  on_pipe-ClosedPipe (some (r, w), s) done = both_closed r w s done

  -- Where making a pipe gives no error there are two ends, and both are closed on exec.
  pipe_lem : (s : S) → (pipe K s).0 ≡ pos 0 → ClosedPipe (pipe K s)
  unfolding pipe
  pipe_lem s done = on_pipe-ClosedPipe (K.pipe s) done
