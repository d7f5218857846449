-- ===== src/Runtime/IoHandle/Epoll.antt =====
-- Polling with epoll (.mooncakes/moonbitlang/async/src/internal/event_loop/epoll.c). The kernel is a
-- parameter: `epoll_ctl`, the files that it watches and with which mask, and the files that it takes
-- at the moment.
use moonbit.Prelude.{
  eq_self, ℕ, ◌≡◌, refl, ap, sym, ◌∙◌, Bool, true, false, not, ◌&&◌, ◌==◌, if◌then◌else◌,
  Bool-cases, inl, inr, Option, none, some, arith,
}
use mathlib.Core.Path.{subst}
use moonbit.Prelude.Int.{ℤ, pos, negsuc, ltb_ℤ}
use moonbit.Runtime.Calls.{is_nonzero}
use moonbit.Runtime.Poll.{
  Events, EventMask, EpollEvent, Ctl, CtlOp, epoll_ctl_add, epoll_ctl_mod, epoll_ctl_del,
  poll_register, join, is_none, ev_masks,
}
use moonbit.Runtime.IoHandle.{
  answer_of, Want, reading, writing, event, Poller, RegisterLaws, IoHandle, detach_from_event_loop,
}

pub record EpollKernel (S : Type 0) : Type 0 where
  pub ctl : Ctl → S → ℤ × S
  pub watched : S → ℕ → Option EventMask
  pub takes : S → ℕ → Bool

-- EEXIST and ENOENT
abbrev pub fits : CtlOp → Option EventMask → Bool
fits epoll_ctl_add none = true
fits epoll_ctl_add (some mask) = false
fits epoll_ctl_mod none = false
fits epoll_ctl_mod (some mask) = true
fits epoll_ctl_del none = false
fits epoll_ctl_del (some mask) = true

-- A removal is never turned down for another reason.
abbrev pub allowed : CtlOp → Bool → Option EventMask → Bool
allowed epoll_ctl_add takes watched = takes && fits epoll_ctl_add watched
allowed epoll_ctl_mod takes watched = takes && fits epoll_ctl_mod watched
allowed epoll_ctl_del takes watched = fits epoll_ctl_del watched

abbrev pub watched_after : CtlOp → EventMask → Option EventMask
watched_after epoll_ctl_add mask = some mask
watched_after epoll_ctl_mod mask = some mask
watched_after epoll_ctl_del mask = none

-- The manual of epoll_ctl: the result is 0 or -1, and what is watched changes if it is 0.
pub record EpollLaws {S : Type 0} (K : EpollKernel S) : Type 0 where
  pub result :
      (c : Ctl) (s : S)
      → (K.ctl c s).0
        ≡ (if allowed c.op (K.takes s c.fd) (K.watched s c.fd) then pos 0 else negsuc 0)
  pub effect :
      (c : Ctl) (s : S) (fd : ℕ)
      → K.watched (K.ctl c s).1 fd ≡ (
          if allowed c.op (K.takes s c.fd) (K.watched s c.fd) && fd == c.fd
          then watched_after c.op c.event.events
          else K.watched s fd)

-- `moonbitlang_async_poll_remove`
unfoldable pub poll_remove : ℕ → EpollEvent → Ctl
poll_remove fd unread = record { op = epoll_ctl_del; fd = fd; event = unread }

-- `moonbitlang_async_poll_remove_pid`, with the descriptor that it closes.
unfoldable pub poll_remove_pid : {S : Type 0} → EpollKernel S → EpollEvent → ℕ → S → ℤ × ℕ × S
unfolding poll_remove
poll_remove_pid K unread pidfd s =
    let (ret, s') = K.ctl (poll_remove pidfd unread) s in (ret, pidfd, s')

-- What is watched of a file for events.
unfoldable pub watched_for : Events → Option EventMask
unfolding is_none ev_masks
watched_for e =
    if is_none e then none else some (record (ev_masks e) { epollet = true; epollrdhup = true })

-- `Instance::register` and `Instance::remove` raise an error unless the result is not negative, or 0.
unfoldable pub epoll_poller : {S : Type 0} → EpollKernel S → Poller S
unfolding poll_register poll_remove ev_masks is_nonzero watched_for
epoll_poller K = record {
  register = λ fd prev new s.
      let (ret, s') = K.ctl (poll_register fd prev new false) s in (not (ltb_ℤ ret (pos 0)), s');
  remove = λ fd events s.
      let (ret, s') =
        K.ctl (poll_remove fd (record { events = ev_masks events; data_u64 = 0 })) s in
      (not (is_nonzero ret), s');
  accepts = K.takes;
  Registered = λ s fd e. K.watched s fd ≡ watched_for e;
}

module _ {S : Type 0} (K : EpollKernel S) (laws : EpollLaws K) where
  -- Adding and changing fit what is watched.
  register_fits :
      (fd : ℕ) (prev : Events) (w : Want) (takes : Bool)
      → allowed (poll_register fd prev (event w) false).op takes (watched_for prev) ≡ takes
  unfolding poll_register watched_for
  register_fits fd prev w takes = elim (Bool-cases (is_none prev)) [
    | inl new ↦ rw new (ground arith)
    | inr known ↦ rw known (ground arith)
  ]

  joined : (prev : Events) (w : Want) → is_none (join prev (event w)) ≡ false
  unfolding is_none join event
  joined prev reading = ground arith
  joined prev writing = ground arith

  register_after :
      (fd : ℕ) (prev : Events) (w : Want)
      → let c = poll_register fd prev (event w) false in
        watched_after c.op c.event.events ≡ watched_for (join prev (event w))
  unfolding poll_register watched_for
  register_after fd prev w = elim (Bool-cases (is_none prev)) [
    | inl new ↦ rw (new, joined prev w) refl
    | inr known ↦ rw (known, joined prev w) refl
  ]

  -- The call that registers, with what it answers and leaves behind.
  register_allowed :
      (fd : ℕ) (prev : Events) (w : Want) (s : S)
      → K.watched s fd ≡ watched_for prev
      → let c = poll_register fd prev (event w) false in
        allowed c.op (K.takes s c.fd) (K.watched s c.fd) ≡ K.takes s fd
  unfolding poll_register
  register_allowed fd prev w s h =
      ap (allowed (poll_register fd prev (event w) false).op (K.takes s fd)) h
      ∙ register_fits fd prev w (K.takes s fd)

  at_file :
      (b : Bool) (e e' : Events)
      → (if b then watched_for e else watched_for e') ≡ watched_for (if b then e else e')
  at_file true e e' = refl
  at_file false e e' = refl

  and_true : (b : Bool) → (b && true) ≡ b
  and_true true = refl
  and_true false = refl

  elsewhere : (b : Bool) (m m' : Option EventMask) → (if b && false then m else m') ≡ m'
  elsewhere true m m' = refl
  elsewhere false m m' = refl

  register_effect :
      (fd : ℕ) (prev : Events) (w : Want) (s : S) (fd' : ℕ)
      → K.watched s fd ≡ watched_for prev
      → K.watched (K.ctl (poll_register fd prev (event w) false) s).1 fd'
        ≡ (if K.takes s fd && fd' == fd then watched_for (join prev (event w)) else K.watched s fd')
  unfolding poll_register
  register_effect fd prev w s fd' h =
      let c = poll_register fd prev (event w) false in
      laws.effect c s fd'
      ∙ ap (λ b. if b && fd' == fd then watched_after c.op c.event.events else K.watched s fd')
          (register_allowed fd prev w s h)
      ∙ ap (λ m. if K.takes s fd && fd' == fd then m else K.watched s fd')
          (register_after fd prev w)

  register_answers :
      (fd : ℕ) (prev : Events) (w : Want) (s : S)
      → K.watched s fd ≡ watched_for prev
      → not (ltb_ℤ (K.ctl (poll_register fd prev (event w) false) s).0 (pos 0)) ≡ K.takes s fd
  register_answers fd prev w s h =
      ap (λ r. not (ltb_ℤ r (pos 0))) (laws.result (poll_register fd prev (event w) false) s)
      ∙ ap (λ b. not (ltb_ℤ (if b then pos 0 else negsuc 0) (pos 0)))
          (register_allowed fd prev w s h)
      ∙ answer_of (K.takes s fd)

  register_adds :
      (fd : ℕ) (prev : Events) (w : Want) (s : S)
      → K.watched s fd ≡ watched_for prev
      → K.watched (K.ctl (poll_register fd prev (event w) false) s).1 fd
        ≡ watched_for (if K.takes s fd then join prev (event w) else prev)
  register_adds fd prev w s h =
      register_effect fd prev w s fd h
      ∙ rw (eq_self fd, h, and_true (K.takes s fd))
          (at_file (K.takes s fd) (join prev (event w)) prev)

  register_framed :
      (fd : ℕ) (prev : Events) (w : Want) (s : S) (fd' : ℕ) (e : Events)
      → (fd' == fd) ≡ false
      → K.watched s fd' ≡ watched_for e
      → K.watched (K.ctl (poll_register fd prev (event w) false) s).1 fd' ≡ watched_for e
  unfolding poll_register
  register_framed fd prev w s fd' e apart g =
      let c = poll_register fd prev (event w) false in
      laws.effect c s fd'
      ∙ rw apart (
          elsewhere (allowed c.op (K.takes s c.fd) (K.watched s c.fd))
            (watched_after c.op c.event.events) (K.watched s fd'))
      ∙ g

  -- Registering with epoll does what is asked of polling, under the manual of epoll_ctl.
  pub epoll_laws : RegisterLaws (epoll_poller K)
  unfolding epoll_poller
  epoll_laws = record {
    answers = λ fd prev w s h. register_answers fd prev w s h;
    adds = λ fd prev w s h.
        subst
          (λ ok.
            K.watched (K.ctl (poll_register fd prev (event w) false) s).1 fd
            ≡ watched_for (if ok then join prev (event w) else prev))
          (sym (register_answers fd prev w s h)) (register_adds fd prev w s h);
    frames = λ fd prev w s fd' e apart h. register_framed fd prev w s fd' e apart h;
  }

  unwatched : (e : Events) → is_none e ≡ true → watched_for e ≡ none
  unfolding watched_for
  unwatched e empty = rw empty refl

  watched_used :
      (e : Events)
      → is_none e ≡ false
      → watched_for e ≡ some (record (ev_masks e) { epollet = true; epollrdhup = true })
  unfolding watched_for
  watched_used e used = rw used refl

  remove_lem :
      (fd : ℕ) (unread : EpollEvent) (s : S) (mask : EventMask)
      → K.watched s fd ≡ some mask
      → let r = K.ctl (poll_remove fd unread) s in
        (r.0 ≡ pos 0)
        × ((fd' : ℕ) → K.watched r.1 fd' ≡ (if fd' == fd then none else K.watched s fd'))
  unfolding poll_remove
  remove_lem fd unread s mask h =
      let c = poll_remove fd unread in
      let fit : fits epoll_ctl_del (K.watched s fd) ≡ true = ap (fits epoll_ctl_del) h in
      (laws.result c s ∙ rw fit refl, λ fd'. laws.effect c s fd' ∙ rw fit refl)

  -- A handle whose events are registered is detached without an error, and its file is not watched any
  -- more; what is watched of other files stays.
  detach_from_event_loop-Registered :
      (handle : IoHandle) (s : S) (other : ℕ)
      → (other == handle.fd) ≡ false
      → (epoll_poller K).Registered s handle.fd handle.events
      → let after = detach_from_event_loop (epoll_poller K) handle s in
        (after.0 ≡ true)
        × (K.watched after.1 handle.fd ≡ none)
        × (K.watched after.1 other ≡ K.watched s other)
  unfolding detach_from_event_loop epoll_poller is_nonzero
  detach_from_event_loop-Registered handle s other apart h =
      elim (Bool-cases (is_none handle.events)) [
        | inl empty ↦ rw empty (refl, h ∙ unwatched handle.events empty, refl)
        | inr used ↦
            let removed =
              remove_lem handle.fd (record { events = ev_masks handle.events; data_u64 = 0 }) s
                (record (ev_masks handle.events) { epollet = true; epollrdhup = true })
                (h ∙ watched_used handle.events used) in
            rw used (
              ap (λ r. not (is_nonzero r)) removed.0,
              removed.1 handle.fd ∙ rw (eq_self handle.fd) refl,
              removed.1 other ∙ rw apart refl,
            )
      ]
