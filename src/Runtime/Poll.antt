-- ===== src/Runtime/Poll.antt =====
-- Waiting for files and processes with epoll
-- (.mooncakes/moonbitlang/async/src/internal/event_loop/epoll.c). A mask of events is a record of its
-- bits, a number of 64 bits is below 2 ^ 64; file descriptors are not negative. What `epoll_ctl` and
-- the other calls answer is a parameter.
use moonbit.Prelude.{
  ℕ, ◌≡◌, refl, Bool, true, false, not, ◌||◌, ◌+◌, ◌%◌, ◌≤◌, leb, arith, if◌then◌else◌,
}
use moonbit.Prelude.Int.{ℤ, pos, negsuc, ltb_ℤ}

-- `EPOLLIN` and so on
pub record EventMask : Type 0 where
  pub epollin : Bool
  pub epollout : Bool
  pub epolloneshot : Bool
  pub epollet : Bool
  pub epollrdhup : Bool
  pub epollerr : Bool
  pub epollhup : Bool

-- `struct epoll_event`, with `data.u64`
pub record EpollEvent : Type 0 where
  pub events : EventMask
  pub data_u64 : ℕ

-- ReadEvent 1, WriteEvent 2, ProcessEvent 4, by bits
pub record Events : Type 0 where
  pub read : Bool
  pub write : Bool
  pub process : Bool

unfoldable pub is_none : Events → Bool
is_none e = not (e.read || e.write || e.process)

unfoldable pub ev_masks : Events → EventMask
ev_masks e = record {
  epollin = e.read;
  epollout = e.write;
  epolloneshot = false;
  epollet = false;
  epollrdhup = false;
  epollerr = false;
  epollhup = false;
}

abbrev pub pid_mask : ℕ
pid_mask = 9223372036854775808

-- `pid_mask | x`
unfoldable pub set_pid_mask : ℕ → ℕ
set_pid_mask x = if leb pid_mask x then x else x + pid_mask

pub data CtlOp : Type 0 where
  epoll_ctl_add epoll_ctl_mod epoll_ctl_del : CtlOp

-- A call of `epoll_ctl`; the event of a removal is not read.
pub record Ctl : Type 0 where
  pub op : CtlOp
  pub fd : ℕ
  pub event : EpollEvent

unfoldable pub join : Events → Events → Events
join a b = record {
  read = a.read || b.read;
  write = a.write || b.write;
  process = a.process || b.process;
}

unfoldable pub poll_register : ℕ → Events → Events → Bool → Ctl
unfolding ev_masks join is_none
poll_register fd prev_events new_events oneshot =
    let events = ev_masks (join prev_events new_events) in
    record {
      op = if is_none prev_events then epoll_ctl_add else epoll_ctl_mod;
      fd = fd;
      event = record {
        events = record events { epolloneshot = oneshot; epollet = true; epollrdhup = true };
        data_u64 = fd;
      };
    }

-- The event for a pidfd.
unfoldable pub pid_event : ℕ → EpollEvent
unfolding set_pid_mask ev_masks
pid_event pidfd = record {
  events = ev_masks (record { read = true; write = false; process = false });
  data_u64 = set_pid_mask pidfd;
}

-- `pidfd_open` gives the descriptor, `ctl` the result of `epoll_ctl`; whether the descriptor is closed
-- again comes with the result.
unfoldable pub poll_register_pid : ℤ → (Ctl → ℤ) → ℤ × Bool
unfolding pid_event
poll_register_pid (negsuc n) ctl = (negsuc 0, false)
poll_register_pid (pos pidfd) ctl =
    let ret = ctl (record { op = epoll_ctl_add; fd = pidfd; event = pid_event pidfd }) in
    if ltb_ℤ ret (pos 0) then (negsuc 0, true) else (pos pidfd, false)

-- `ev->data.u64 & ~pid_mask`
unfoldable pub event_get_fd : EpollEvent → ℕ
event_get_fd ev = ev.data_u64 % pid_mask

unfoldable pub event_get_events : EpollEvent → Events
event_get_events ev =
    if leb pid_mask ev.data_u64
    then record { read = false; write = false; process = true }
    else if ev.events.epollerr || ev.events.epollhup || ev.events.epollrdhup
    then record { read = true; write = true; process = false }
    else record { read = ev.events.epollin; write = ev.events.epollout; process = false }

no_mask : (fd : ℕ) → fd ≤ 2147483647 → leb pid_mask fd ≡ false
no_mask fd small = ground arith

with_mask : (fd : ℕ) → leb pid_mask (fd + pid_mask) ≡ true
with_mask fd = ground arith

set_pid_mask_lem : (fd : ℕ) → fd ≤ 2147483647 → set_pid_mask fd ≡ fd + pid_mask
unfolding set_pid_mask
set_pid_mask_lem fd small = rw (no_mask fd small) refl

of_file :
    (b r w : Bool)
    → let e : Events =
        if b
        then record { read = true; write = true; process = false }
        else record { read = r; write = w; process = false } in
      e.process ≡ false
of_file true r w = refl
of_file false r w = refl

-- What the kernel reports of a registration: any events, with the data that it was registered with.
abbrev pub reported : EventMask → EpollEvent → EpollEvent
reported mask registered = record registered { events = mask }

-- An event that is reported of a file is read as one of that file, and not of a process; one that is
-- reported of a process is read as one of the process with that descriptor, whatever the events are.
event_get_fd_lem :
    (fd : ℕ) (prev_events new_events : Events) (oneshot : Bool) (mask : EventMask)
    → fd ≤ 2147483647
    → let file = reported mask (poll_register fd prev_events new_events oneshot).event in
      let process = reported mask (pid_event fd) in
      (event_get_fd file ≡ fd)
      × ((event_get_events file).process ≡ false)
      × (event_get_fd process ≡ fd)
      × (event_get_events process ≡ record { read = false; write = false; process = true })
unfolding event_get_fd event_get_events poll_register pid_event
event_get_fd_lem fd prev_events new_events oneshot mask small = (
  omega (arith, small),
  rw (no_mask fd small)
      (of_file (mask.epollerr || mask.epollhup || mask.epollrdhup) mask.epollin mask.epollout),
  rw (set_pid_mask_lem fd small) (omega (arith, small)),
  rw (set_pid_mask_lem fd small, with_mask fd) refl,
)
