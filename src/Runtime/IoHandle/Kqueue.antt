-- ===== src/Runtime/IoHandle/Kqueue.antt =====
-- Polling with kqueue (.mooncakes/moonbitlang/async/src/internal/event_loop/kqueue.c). The kernel is a
-- parameter: `kevent` with one change, and which filters are registered of which identifier.
use moonbit.Prelude.{
  eq_self, ℕ, ◌≡◌, refl, ap, sym, ◌∙◌, Bool, true, false, not, ◌||◌, ◌&&◌, ◌==◌, if◌then◌else◌,
  List, [], ◌∷◌, arith,
}
use mathlib.Core.Path.{subst}
use moonbit.Prelude.Int.{ℤ, pos, negsuc, ltb_ℤ}
use moonbit.Runtime.Calls.{is_nonzero, eq_ℤ}
use moonbit.Runtime.Poll.{Events, join, is_none}
use moonbit.Runtime.IoHandle.{
  answer_of, Want, reading, writing, event, Poller, RegisterLaws, IoHandle, detach_from_event_loop,
}

-- EVFILT_READ, EVFILT_WRITE and EVFILT_PROC
abbrev pub evfilt_read : ℤ
evfilt_read = negsuc 0

abbrev pub evfilt_write : ℤ
evfilt_write = negsuc 1

abbrev pub evfilt_proc : ℤ
evfilt_proc = negsuc 4

-- `ev_masks[events]`: every bit of EVFILT_READ is set, so that EVFILT_READ | EVFILT_WRITE is
-- EVFILT_READ.
unfoldable pub ev_masks : Events → ℤ
ev_masks e = if e.read then evfilt_read else if e.write then evfilt_write else pos 0

pub data Flag : Type 0 where
  ev_add ev_delete ev_clear ev_dispatch ev_error : Flag

pub data NoteFlag : Type 0 where
  note_exit note_exitstatus : NoteFlag

-- `struct kevent`
pub record Kevent : Type 0 where
  pub ident : ℕ
  pub filter : ℤ
  pub flags : List Flag
  pub fflags : List NoteFlag

unfoldable pub poll_register : ℕ → Events → Events → Bool → Kevent
unfolding ev_masks
poll_register fd prev_events new_events oneshot = record {
  ident = fd;
  filter = ev_masks new_events;
  flags = ev_add ∷ ev_clear ∷ (if oneshot then ev_dispatch ∷ [] else []);
  fflags = [];
}

-- What is registered for a process; `mach` is whether the system is Mac OS.
unfoldable pub pid_event : Bool → ℕ → Kevent
pid_event mach pid = record {
  ident = pid;
  filter = evfilt_proc;
  flags = ev_add ∷ [];
  fflags = if mach then note_exitstatus ∷ [] else note_exit ∷ [];
}

abbrev pub esrch : ℤ
esrch = pos 3

-- From the result and `errno`.
unfoldable pub pid_result : ℕ → ℤ → ℤ → ℤ
unfolding eq_ℤ
pid_result pid ret errno =
    if not (ltb_ℤ ret (pos 0)) then pos pid else if eq_ℤ errno esrch then negsuc 1 else negsuc 0

-- `moonbitlang_async_poll_register_pid`, where `kevent` gives its result and `errno`.
unfoldable pub poll_register_pid : Bool → (Kevent → ℤ × ℤ) → ℕ → ℤ
unfolding pid_event pid_result
poll_register_pid mach kevent pid =
    let (ret, errno) = kevent (pid_event mach pid) in pid_result pid ret errno

unfoldable pub poll_remove : ℕ → Events → Kevent
unfolding ev_masks
poll_remove fd events = record {
  ident = fd;
  filter = ev_masks events;
  flags = ev_delete ∷ [];
  fflags = [];
}

unfoldable pub has_error : List Flag → Bool
has_error [] = false
has_error (ev_error ∷ flags) = true
has_error (_ ∷ flags) = has_error flags

unfoldable pub event_get_fd : Kevent → ℕ
event_get_fd ev = ev.ident

unfoldable pub event_get_events : Kevent → Events
unfolding eq_ℤ has_error
event_get_events ev =
    if eq_ℤ ev.filter evfilt_read
    then record { read = true; write = false; process = false }
    else if eq_ℤ ev.filter evfilt_write
    then record { read = false; write = true; process = false }
    else if eq_ℤ ev.filter evfilt_proc
    then record { read = false; write = false; process = true }
    else record { read = has_error ev.flags; write = has_error ev.flags; process = false }

-- What is reported of a file that is registered for one event is read as that event of that file, and
-- what is reported of a process as one of that process; an error that names no filter of these is read
-- as both events of a file.
event_of_registered :
    (mach : Bool) (ident : ℕ) (prev : Events) (w : Want) (oneshot : Bool) (flags : List Flag)
    → let file = record (poll_register ident prev (event w) oneshot) { flags = flags } in
      let process = record (pid_event mach ident) { flags = flags } in
      let other = record process { filter = pos 0 } in
      (event_get_fd file ≡ ident)
      × (event_get_events file ≡ event w)
      × (event_get_fd process ≡ ident)
      × (event_get_events process ≡ record { read = false; write = false; process = true })
      × (is_none (event_get_events other) ≡ not (has_error flags))
unfolding poll_register pid_event event_get_fd event_get_events eq_ℤ event ev_masks is_none
event_of_registered mach ident prev reading oneshot flags = (refl, refl, refl, refl, ground arith)
event_of_registered mach ident prev writing oneshot flags = (refl, refl, refl, refl, ground arith)

pub record KqueueKernel (S : Type 0) : Type 0 where
  pub kevent : Kevent → S → ℤ × S
  pub registered : S → ℕ → ℤ → Bool
  pub takes : S → ℕ → Bool

-- The manual of kqueue: EV_ADD puts one filter of an identifier in, EV_DELETE takes one out that is
-- there, and the result is -1 if nothing changes.
pub record KqueueLaws {S : Type 0} (K : KqueueKernel S) : Type 0 where
  pub add_result :
      (ev : Kevent) (flags : List Flag) (s : S)
      → ev.flags ≡ ev_add ∷ flags
      → (K.kevent ev s).0 ≡ (if K.takes s ev.ident then pos 0 else negsuc 0)
  pub add_effect :
      (ev : Kevent) (flags : List Flag) (s : S) (ident : ℕ) (filter : ℤ)
      → ev.flags ≡ ev_add ∷ flags
      → K.registered (K.kevent ev s).1 ident filter ≡ (
          K.registered s ident filter
          || (K.takes s ev.ident && (ident == ev.ident && eq_ℤ filter ev.filter)))
  pub delete_result :
      (ev : Kevent) (s : S)
      → ev.flags ≡ ev_delete ∷ []
      → (K.kevent ev s).0 ≡ (if K.registered s ev.ident ev.filter then pos 0 else negsuc 0)
  pub delete_effect :
      (ev : Kevent) (s : S) (ident : ℕ) (filter : ℤ)
      → ev.flags ≡ ev_delete ∷ []
      → K.registered (K.kevent ev s).1 ident filter
        ≡ (K.registered s ident filter && not (ident == ev.ident && eq_ℤ filter ev.filter))

unfoldable pub kqueue_poller : {S : Type 0} → KqueueKernel S → Poller S
unfolding poll_register poll_remove is_nonzero
kqueue_poller K = record {
  register = λ fd prev new s.
      let (ret, s') = K.kevent (poll_register fd prev new false) s in (not (ltb_ℤ ret (pos 0)), s');
  remove = λ fd events s.
      let (ret, s') = K.kevent (poll_remove fd events) s in (not (is_nonzero ret), s');
  accepts = K.takes;
  Registered = λ s fd e.
      (K.registered s fd evfilt_read ≡ e.read) × (K.registered s fd evfilt_write ≡ e.write);
}

module _ {S : Type 0} (K : KqueueKernel S) (laws : KqueueLaws K) where
  register_answers :
      (fd : ℕ) (prev new : Events) (s : S)
      → not (ltb_ℤ (K.kevent (poll_register fd prev new false) s).0 (pos 0)) ≡ K.takes s fd
  unfolding poll_register
  register_answers fd prev new s =
      ap (λ r. not (ltb_ℤ r (pos 0)))
        (laws.add_result (poll_register fd prev new false) (ev_clear ∷ []) s refl)
      ∙ answer_of (K.takes s fd)

  register_effect :
      (fd : ℕ) (prev new : Events) (s : S) (fd' : ℕ) (filter : ℤ)
      → K.registered (K.kevent (poll_register fd prev new false) s).1 fd' filter
        ≡ (K.registered s fd' filter || (K.takes s fd && (fd' == fd && eq_ℤ filter (ev_masks new))))
  unfolding poll_register
  register_effect fd prev new s fd' filter =
      laws.add_effect (poll_register fd prev new false) (ev_clear ∷ []) s fd' filter refl

  or_false : (b : Bool) → (b || false) ≡ b
  or_false true = refl
  or_false false = refl

  read_joined :
      (takes : Bool) (prev : Events) (w : Want)
      → (prev.read || (takes && eq_ℤ evfilt_read (ev_masks (event w))))
        ≡ (if takes then join prev (event w) else prev).read
  unfolding ev_masks event join eq_ℤ
  read_joined true prev reading = refl
  read_joined true prev writing = refl
  read_joined false prev w = or_false prev.read

  write_joined :
      (takes : Bool) (prev : Events) (w : Want)
      → (prev.write || (takes && eq_ℤ evfilt_write (ev_masks (event w))))
        ≡ (if takes then join prev (event w) else prev).write
  unfolding ev_masks event join eq_ℤ
  write_joined true prev reading = refl
  write_joined true prev writing = refl
  write_joined false prev w = or_false prev.write

  register_adds :
      (fd : ℕ) (prev : Events) (w : Want) (s : S)
      → (kqueue_poller K).Registered s fd prev
      → (kqueue_poller K).Registered
          (K.kevent (poll_register fd prev (event w) false) s).1
          fd
          (if K.takes s fd then join prev (event w) else prev)
  unfolding kqueue_poller
  register_adds fd prev w s (r, v) = (
    register_effect fd prev (event w) s fd evfilt_read
        ∙ rw (eq_self fd, r) (read_joined (K.takes s fd) prev w),
    register_effect fd prev (event w) s fd evfilt_write
        ∙ rw (eq_self fd, v) (write_joined (K.takes s fd) prev w),
  )

  unchanged : (b takes : Bool) → (b || (takes && false)) ≡ b
  unchanged b true = or_false b
  unchanged b false = or_false b

  register_framed :
      (fd : ℕ) (prev new : Events) (s : S) (fd' : ℕ) (filter : ℤ)
      → (fd' == fd) ≡ false
      → K.registered (K.kevent (poll_register fd prev new false) s).1 fd' filter
        ≡ K.registered s fd' filter
  register_framed fd prev new s fd' filter apart =
      register_effect fd prev new s fd' filter
      ∙ rw apart (unchanged (K.registered s fd' filter) (K.takes s fd))

  -- Registering with kqueue does what is asked of polling, under the manual of kqueue.
  pub kqueue_laws : RegisterLaws (kqueue_poller K)
  unfolding kqueue_poller
  kqueue_laws = record {
    answers = λ fd prev w s h. register_answers fd prev (event w) s;
    adds = λ fd prev w s h.
        subst
          (λ ok.
            (kqueue_poller K).Registered (K.kevent (poll_register fd prev (event w) false) s).1 fd
              (if ok then join prev (event w) else prev))
          (sym (register_answers fd prev (event w) s)) (register_adds fd prev w s h);
    frames = λ fd prev w s fd' e apart h. (
      register_framed fd prev (event w) s fd' evfilt_read apart ∙ h.0,
      register_framed fd prev (event w) s fd' evfilt_write apart ∙ h.1,
    );
  }

  remove_both :
      (fd : ℕ) (s : S)
      → K.registered s fd evfilt_read ≡ true
      → K.registered s fd evfilt_write ≡ true
      → let r =
          K.kevent (poll_remove fd (record { read = true; write = true; process = false })) s in
        (r.0 ≡ pos 0)
        × (K.registered r.1 fd evfilt_read ≡ false)
        × (K.registered r.1 fd evfilt_write ≡ true)
  unfolding poll_remove ev_masks eq_ℤ
  remove_both fd s r v =
      let ev = poll_remove fd (record { read = true; write = true; process = false }) in
      (
        laws.delete_result ev s refl ∙ rw r refl,
        laws.delete_effect ev s fd evfilt_read refl ∙ rw (r, eq_self fd) refl,
        laws.delete_effect ev s fd evfilt_write refl ∙ rw (v, eq_self fd) refl,
      )

  -- A handle that waits for reading and writing is detached without an error, and its file stays
  -- registered for writing, though not for reading.
  pub detach_leaves_write :
      (handle : IoHandle) (s : S)
      → handle.events ≡ record { read = true; write = true; process = false }
      → (kqueue_poller K).Registered s handle.fd handle.events
      → let after = detach_from_event_loop (kqueue_poller K) handle s in
        (after.0 ≡ true)
        × (K.registered after.1 handle.fd evfilt_read ≡ false)
        × (K.registered after.1 handle.fd evfilt_write ≡ true)
  unfolding detach_from_event_loop kqueue_poller is_nonzero poll_remove eq_ℤ is_none
  detach_leaves_write handle s both (r, v) =
      let removed =
        remove_both handle.fd s (r ∙ ap (λ e. e.read) both) (v ∙ ap (λ e. e.write) both) in
      subst
        (λ e.
          let after =
            detach_from_event_loop (kqueue_poller K) (record { fd = handle.fd; events = e }) s in
          (after.0 ≡ true)
          × (K.registered after.1 handle.fd evfilt_read ≡ false)
          × (K.registered after.1 handle.fd evfilt_write ≡ true))
        (sym both) (ap (λ ret. not (is_nonzero ret)) removed.0, removed.1, removed.2)
