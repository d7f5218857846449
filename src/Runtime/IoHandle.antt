-- ===== src/Runtime/IoHandle.antt =====
-- What the event loop asks of the kernel's polling, and the handles that use it
-- (.mooncakes/moonbitlang/async/src/internal/event_loop/io_unix.mbt, poll.mbt there). The back ends are
-- epoll.c and kqueue.c.
pub mod Epoll
pub mod Kqueue
use mathlib.Core.Path.{subst}
use moonbit.Prelude.{
  not, ap, sym, ◌∙◌, arith, ℕ, ◌≡◌, refl, Bool, true, false, ◌||◌, ◌==◌, List, [], ◌∷◌,
  if◌then◌else◌, Bool-cases, inl, inr, All,
}
use moonbit.Prelude.Int.{pos, negsuc, ltb_ℤ}
use moonbit.Runtime.Poll.{Events, join, is_none}

-- ReadEvent and WriteEvent
pub data Want : Type 0 where
  reading writing : Want

unfoldable pub event : Want → Events
event reading = record { read = true; write = false; process = false }
event writing = record { read = false; write = true; process = false }

unfoldable pub wants : Events → Want → Bool
wants e reading = e.read
wants e writing = e.write

-- Polling over a state `S`: registering (never for one shot) and removing, and whether each succeeds;
-- whether the kernel takes another registration of the file, and what it has registered of it.
pub record Poller (S : Type 0) : Type 1 where
  pub register : ℕ → Events → Events → S → Bool × S
  pub remove : ℕ → Events → S → Bool × S
  pub accepts : S → ℕ → Bool
  pub Registered : S → ℕ → Events → Type 0

-- A registration adds to those of the file, or changes nothing, and leaves other files alone.
pub record RegisterLaws {S : Type 0} (P : Poller S) : Type 0 where
  pub answers :
      (fd : ℕ) (prev : Events) (w : Want) (s : S)
      → P.Registered s fd prev
      → (P.register fd prev (event w) s).0 ≡ P.accepts s fd
  pub adds :
      (fd : ℕ) (prev : Events) (w : Want) (s : S)
      → P.Registered s fd prev
      → let r = P.register fd prev (event w) s in
        P.Registered r.1 fd (if r.0 then join prev (event w) else prev)
  pub frames :
      (fd : ℕ) (prev : Events) (w : Want) (s : S) (fd' : ℕ) (e : Events)
      → (fd' == fd) ≡ false
      → P.Registered s fd' e
      → P.Registered (P.register fd prev (event w) s).1 fd' e

-- A call that answers 0 or -1 succeeds where it answers 0.
pub answer_of : (b : Bool) → not (ltb_ℤ (if b then pos 0 else negsuc 0) (pos 0)) ≡ b
answer_of true = refl
answer_of false = refl

-- The descriptor and the events of an `IoHandle`.
pub record IoHandle : Type 0 where
  pub fd : ℕ
  pub events : Events

-- Where the registration fails an error is raised, and the handle stays as it was.
unfoldable pub on_registered : {S : Type 0} → IoHandle → Want → Bool × S → Bool × IoHandle × S
unfolding event join
on_registered handle w (ok, s) =
    (ok, if ok then record handle { events = join handle.events (event w) } else handle, s)

-- `IoHandle::prepare_read` and `IoHandle::prepare_write`, and whether they return.
unfoldable pub prepare : {S : Type 0} → Poller S → Want → IoHandle → S → Bool × IoHandle × S
unfolding event wants on_registered
prepare P w handle s =
    if wants handle.events w
    then (true, handle, s)
    else on_registered handle w (P.register handle.fd handle.events (event w) s)

-- `false` stands for `abort`.
unfoldable pub detach_from_event_loop : {S : Type 0} → Poller S → IoHandle → S → Bool × S
unfolding is_none
detach_from_event_loop P handle s =
    if is_none handle.events then (true, s) else P.remove handle.fd handle.events s

-- One handle is prepared again and again; errors that are raised are caught.
unfoldable pub prepare_all : {S : Type 0} → Poller S → List Want → IoHandle → S → IoHandle × S
unfolding prepare
prepare_all P [] handle s = (handle, s)
prepare_all P (w ∷ ws) handle s =
    let (ok, handle', s') = prepare P w handle s in prepare_all P ws handle' s'

abbrev any_wants : List Want → Want → Bool
any_wants [] v = false
any_wants (w ∷ ws) v = wants (event w) v || any_wants ws v

module _ {S : Type 0} (P : Poller S) (laws : RegisterLaws P) where
  -- The kernel has registered what the handle names.
  abbrev Agrees : IoHandle × S → Type 0
  Agrees (handle, s) = P.Registered s handle.fd handle.events

  on_registered-Agrees :
      (handle : IoHandle) (w : Want) (Q : S → Type 0) (r : Bool × S)
      → P.Registered r.1 handle.fd (if r.0 then join handle.events (event w) else handle.events)
      → Q r.1
      → let after = on_registered handle w r in
        Agrees (after.1, after.2) × Q after.2 × (after.1.fd ≡ handle.fd)
  unfolding on_registered
  on_registered-Agrees handle w Q (true, s) h q = (h, q, refl)
  on_registered-Agrees handle w Q (false, s) h q = (h, q, refl)

  prepare-Agrees :
      (w : Want) (handle : IoHandle) (s : S) (Q : S → Type 0)
      → Q s
      → Q (P.register handle.fd handle.events (event w) s).1
      → P.Registered s handle.fd handle.events
      → let after = prepare P w handle s in
        Agrees (after.1, after.2) × Q after.2 × (after.1.fd ≡ handle.fd)
  unfolding prepare
  prepare-Agrees w handle s Q q q' h = elim (Bool-cases (wants handle.events w)) [
    | inl known ↦ rw known (h, q, refl)
    | inr new ↦ rw new (
        on_registered-Agrees handle w Q (P.register handle.fd handle.events (event w) s)
          (laws.adds handle.fd handle.events w s h) q')
  ]

  -- Whatever is prepared on a handle, and whichever registrations the kernel turns down: the kernel has
  -- registered of its file exactly the events that the handle names, and of another file what it had.
  pub prepare_all-Registered :
      (ws : List Want) (handle : IoHandle) (s : S) (other : ℕ) (e : Events)
      → (other == handle.fd) ≡ false
      → P.Registered s handle.fd handle.events
      → P.Registered s other e
      → let after = prepare_all P ws handle s in Agrees after × P.Registered after.1 other e
  unfolding prepare_all
  prepare_all-Registered [] handle s other e apart h g = (h, g)
  prepare_all-Registered (w ∷ ws) handle s other e apart h g =
      let after = prepare P w handle s in
      let (agrees, kept, same) =
        prepare-Agrees w handle s (λ s'. P.Registered s' other e) g
          (laws.frames handle.fd handle.events w s other e apart g) h in
      prepare_all-Registered ws after.1 after.2 other e (rw same apart) agrees kept

  -- What is wanted afterwards, where the kernel turns nothing down.
  on_registered-wants :
      (handle : IoHandle) (w v : Want) (s : S)
      → wants (on_registered handle w (true, s)).1.events v
        ≡ (wants handle.events v || wants (event w) v)
  unfolding on_registered wants event join
  on_registered-wants handle w reading s = refl
  on_registered-wants handle w writing s = refl

  absorbed :
      (e : Events) (w v : Want) → wants e w ≡ true → wants e v ≡ (wants e v || wants (event w) v)
  unfolding wants event
  absorbed e reading reading known = ground arith
  absorbed e reading writing known = ground arith
  absorbed e writing reading known = ground arith
  absorbed e writing writing known = ground arith

  prepare-wants :
      (w v : Want) (handle : IoHandle) (s : S)
      → P.accepts s handle.fd ≡ true
      → P.Registered s handle.fd handle.events
      → let after = prepare P w handle s in
        wants after.1.events v ≡ (wants handle.events v || wants (event w) v)
  unfolding prepare
  prepare-wants w v handle s accepts h = elim (Bool-cases (wants handle.events w)) [
    | inl known ↦ rw known (absorbed handle.events w v known)
    | inr new ↦
        let r = P.register handle.fd handle.events (event w) s in
        let answer : r.0 ≡ true = laws.answers handle.fd handle.events w s h ∙ accepts in
        rw new (
          subst
            (λ ok.
              wants (on_registered handle w (ok, r.1)).1.events v
              ≡ (wants handle.events v || wants (event w) v))
            (sym answer) (on_registered-wants handle w v r.1))
  ]

  or_assoc : (a b c : Bool) → ((a || b) || c) ≡ (a || (b || c))
  or_assoc true b c = refl
  or_assoc false b c = refl

  -- Where the kernel turns no registration down, the handle names afterwards the events that it named
  -- before and those that were prepared, and no others.
  prepare_all-wants :
      (ws : List Want) (handle : IoHandle) (s : S) (v : Want)
      → ((s' : S) (fd : ℕ) → P.accepts s' fd ≡ true)
      → P.Registered s handle.fd handle.events
      → wants (prepare_all P ws handle s).0.events v ≡ (wants handle.events v || any_wants ws v)
  unfolding prepare_all
  prepare_all-wants [] handle s v accepts h = ground arith
  prepare_all-wants (w ∷ ws) handle s v accepts h =
      let after = prepare P w handle s in
      let agrees = (prepare-Agrees w handle s (λ s'. Unit) tt tt h).0 in
      prepare_all-wants ws after.1 after.2 v accepts agrees
      ∙ ap (λ b. b || any_wants ws v) (prepare-wants w v handle s (accepts s handle.fd) h)
      ∙ or_assoc (wants handle.events v) (wants (event w) v) (any_wants ws v)
