-- ===== src/Runtime/Pool.antt =====
-- Setting the thread pool up and tearing it down
-- (.mooncakes/moonbitlang/async/src/internal/event_loop/thread_pool.c), on Linux. A set of signals
-- is a test, `none` is the end of the process by `abort`.
use moonbit.Prelude.{
  ◌≡◌, refl, Bool, true, false, not, ◌||◌, ◌&&◌, if◌then◌else◌, Option, none, some,
}
use moonbit.Prelude.Int.{ℤ, pos}
use moonbit.Runtime.Calls.{eq_ℤ}

abbrev pub SignalSet : Type 0
SignalSet = ℤ → Bool

abbrev pub sigusr1 : ℤ
sigusr1 = pos 10

abbrev pub sigusr2 : ℤ
sigusr2 = pos 12

abbrev pub sigpipe : ℤ
sigpipe = pos 13

abbrev pub sigchld : ℤ
sigchld = pos 17

unfoldable pub sigfillset : SignalSet
sigfillset s = true

unfoldable pub sigemptyset : SignalSet
sigemptyset s = false

unfoldable pub sigaddset : SignalSet → ℤ → SignalSet
unfolding eq_ℤ
sigaddset set sig s = eq_ℤ s sig || set s

unfoldable pub sigdelset : SignalSet → ℤ → SignalSet
unfolding eq_ℤ
sigdelset set sig s = not (eq_ℤ s sig) && set s

pub data Disposition : Type 0 where
  default ignored nop_signal_handler : Disposition

-- The static `pool`.
pub record Pool : Type 0 where
  pub initialized : Bool
  pub notify_send : ℤ
  pub worker_sigmask : SignalSet
  pub old_sigmask : SignalSet
  pub wakeup_signal : SignalSet

-- The pool beside what the process keeps for it: the mask of the main thread and the handlers.
pub record Process : Type 0 where
  pub pool : Pool
  pub blocked : SignalSet
  pub handlers : ℤ → Disposition

-- After the guard.
unfoldable pub set_up : ℤ → Process → Process
unfolding sigfillset sigemptyset sigaddset sigdelset eq_ℤ
set_up notify_send s =
    let signals_to_block = sigaddset (sigaddset sigemptyset sigchld) sigusr1 in
    record {
      pool = record {
        initialized = true;
        notify_send = notify_send;
        worker_sigmask = sigdelset sigfillset sigusr2;
        old_sigmask = s.blocked;
        wakeup_signal = sigaddset sigemptyset sigusr1;
      };
      blocked = λ x. signals_to_block x || s.blocked x;
      handlers = λ x.
          if eq_ℤ x sigusr2
          then nop_signal_handler
          else if eq_ℤ x sigpipe
          then ignored
          else s.handlers x;
    }

unfoldable pub init_thread_pool : ℤ → Process → Option Process
unfolding set_up
init_thread_pool notify_send s = if s.pool.initialized then none else some (set_up notify_send s)

unfoldable pub destroy_thread_pool : Process → Option Process
destroy_thread_pool s =
    if s.pool.initialized
    then some
        (record s { pool = record s.pool { initialized = false }; blocked = s.pool.old_sigmask })
    else none

-- The mask of a new worker thread, which is its creator's while it is created, and the process after
-- `spawn_worker`, with the mask of the creator as before.
unfoldable pub worker_mask : Process → SignalSet × Process
worker_mask s =
    let curr_sigmask = s.blocked in
    let during : Process = record s { blocked = s.pool.worker_sigmask } in
    (during.blocked, record during { blocked = curr_sigmask })

-- What a pool that was set up is to its process.
pub record IsSetUp (before s : Process) : Type 0 where
  pub not_twice : (fd : ℤ) → init_thread_pool fd s ≡ none
  pub spawns : (worker_mask s).1 ≡ s
  pub wakes_only : (worker_mask s).0 sigusr1 ≡ true
  pub interruptible : (worker_mask s).0 sigusr2 ≡ false
  pub waits_for : s.pool.wakeup_signal sigusr1 ≡ true
  pub blocks : s.blocked sigusr1 ≡ true
  pub survives : s.handlers sigusr2 ≡ nop_signal_handler
  pub torn_down :
      destroy_thread_pool s
      ≡ some (record s { pool = record s.pool { initialized = false }; blocked = before.blocked })

-- Setting up a pool that is not set up succeeds, and from then on: setting it up again aborts, workers
-- start with SIGUSR1 blocked and SIGUSR2 not, the latter has a handler, `sigwait` is for the former,
-- spawning leaves the mask of the spawning thread as it is, and tearing down restores the mask from
-- before.
init_thread_pool-IsSetUp :
    (fd : ℤ) (s : Process)
    → s.pool.initialized ≡ false
    → (t : Process) × (init_thread_pool fd s ≡ some t) × IsSetUp s t
unfolding set_up init_thread_pool destroy_thread_pool worker_mask sigfillset sigemptyset sigaddset
    sigdelset eq_ℤ
init_thread_pool-IsSetUp fd s h = (
  set_up fd s,
  rw h refl,
  record {
    not_twice = λ n. refl;
    spawns = refl;
    wakes_only = refl;
    interruptible = refl;
    waits_for = refl;
    blocks = refl;
    survives = refl;
    torn_down = refl;
  },
)
