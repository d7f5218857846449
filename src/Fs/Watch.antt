-- ===== src/Fs/Watch.antt =====
-- Events of watched files as inotify gives them (.mooncakes/moonbitlang/async/src/fs/watch_inotify.c) and
-- what the watcher does with them (watch_inotify.mbt there), on Linux. A watch descriptor is its 32
-- bits; `Id` is the type of `FileIdentity`.
use moonbit.Prelude.{
  ℕ, zero, suc, ◌+◌, ◌/◌, ◌%◌, ◌^◌, ◌==◌, ◌||◌, Bool, true, Option, none, some, List, ◌∷◌,
  if◌then◌else◌, ltb, not,
}
use moonbit.Prelude.Bytes.{drop, read_le}
use moonbit.Prelude.Int.{ℤ, pos, negsuc, ltb_ℤ}
use moonbit.Runtime.Calls.{eq_ℤ}

-- `sizeof(struct inotify_event)`: wd, mask, cookie and len, of 4 bytes each.
abbrev pub event_header_size : ℕ
event_header_size = 16

unfoldable pub event_buffer_size : ℕ
event_buffer_size =
    let min_size = event_header_size + 255 + 1 in if ltb 4096 min_size then min_size else 4096

-- EAGAIN, on Linux
abbrev pub eagain : ℤ
eagain = pos 11

-- From the result of `read` and `errno`.
unfoldable pub fetch_event : ℤ → ℤ → ℤ
unfolding eq_ℤ
fetch_event ret errno =
    if ltb_ℤ (pos 0) ret then ret else if eq_ℤ errno eagain then pos 0 else negsuc 0

unfoldable pub get_event : List ℕ → ℕ → List ℕ
unfolding drop
get_event buf offset = drop offset buf

unfoldable pub event_get_size : List ℕ → Option ℕ
unfolding read_le drop
event_get_size event = elim (read_le 4 (drop 12 event)) [
  | none ↦ none
  | some len ↦ some (event_header_size + len)
]

unfoldable pub event_get_wd : List ℕ → Option ℕ
unfolding read_le
event_get_wd event = read_le 4 event

unfoldable pub event_mask : List ℕ → Option ℕ
unfolding read_le drop
event_mask event = read_le 4 (drop 4 event)

-- `mask & (1 << bit)`
unfoldable pub has_bit : ℕ → ℕ → Bool
has_bit bit mask = mask / 2 ^ bit % 2 == 1

-- IN_MODIFY is 1 << 1, IN_MOVED_FROM 1 << 6, IN_MOVED_TO 1 << 7, IN_CREATE 1 << 8, IN_DELETE 1 << 9.
unfoldable pub has_relevant_event : ℕ → Bool
unfolding has_bit
has_relevant_event mask =
    has_bit 8 mask || has_bit 9 mask || has_bit 1 mask || has_bit 6 mask || has_bit 7 mask

-- IN_Q_OVERFLOW is 1 << 14, IN_IGNORED 1 << 15.
unfoldable pub has_overflow : ℕ → Bool
unfolding has_bit
has_overflow mask = has_bit 14 mask

unfoldable pub has_ignore : ℕ → Bool
unfolding has_bit
has_ignore mask = has_bit 15 mask

pub record FileIdentity : Type 0 where
  pub dev_id : ℕ
  pub file_id : ℕ

-- The calls of the watcher that an event leads to.
pub data Notice : Type 0 where
  overflow : Notice
  mark_as_modified : FileIdentity → Notice

-- The part of an `InotifyWatcher` that events change; the latest notice comes first.
pub record InotifyWatcher : Type 0 where
  pub watched : ℕ → Option FileIdentity
  pub notices : List Notice

unfoldable pub forget : ℕ → InotifyWatcher → InotifyWatcher
forget wd w = record w { watched = λ wd'. if wd' == wd then none else w.watched wd' }

unfoldable pub notify : Notice → InotifyWatcher → InotifyWatcher
notify n w = record w { notices = n ∷ w.notices }

-- The index of a map that lacks the key ends the program, which is `none`.
unfoldable pub mark : Option FileIdentity → InotifyWatcher → Option InotifyWatcher
unfolding notify
mark none w = none
mark (some id) w = some (notify (mark_as_modified id) w)

-- What one event does.
unfoldable pub handle_event : ℕ → ℕ → InotifyWatcher → Option InotifyWatcher
unfolding has_ignore has_overflow has_relevant_event forget notify mark
handle_event wd mask w =
    if has_ignore mask
    then some (forget wd w)
    else if has_overflow mask
    then some (notify overflow w)
    else if has_relevant_event mask
    then mark (w.watched wd) w
    else some w

pub data Processed : Type 0 where
  processed : InotifyWatcher → Processed
  missing_key out_of_bounds out_of_fuel : Processed

unfoldable pub on_handled : (InotifyWatcher → Processed) → Option InotifyWatcher → Processed
on_handled again none = missing_key
on_handled again (some w) = again w

-- `again` goes on at an offset.
unfoldable pub on_event :
    (ℕ → InotifyWatcher → Processed)
    → ℕ
    → InotifyWatcher
    → Option ℕ
    → Option ℕ
    → Option ℕ
    → Processed
unfolding handle_event on_handled
on_event again offset w (some size) (some wd) (some mask) =
    on_handled (again (offset + size)) (handle_event wd mask w)
on_event again offset w _ _ _ = out_of_bounds

-- The loop of `InotifyWatcher::process_events` over the `n` bytes that were read, on fuel: one for each
-- event, and one more.
unfoldable pub process_events : ℕ → List ℕ → ℕ → ℕ → InotifyWatcher → Processed
unfolding get_event event_get_size event_get_wd event_mask on_event
process_events zero buf n offset w = out_of_fuel
process_events (suc fuel) buf n offset w =
    let event = get_event buf offset in
    if ltb offset n
    then on_event (process_events fuel buf n) offset w (event_get_size event) (event_get_wd event)
        (event_mask event)
    else processed w

-- `remove_file`, with the result of `inotify_rm_watch`: a file that is not watched is left alone.
unfoldable pub on_watched :
    ℕ → (ℕ → ℤ) → Option FileIdentity → InotifyWatcher → Bool × InotifyWatcher
unfolding forget
on_watched wd rm_watch none w = (true, w)
on_watched wd rm_watch (some id) w = (not (ltb_ℤ (rm_watch wd) (pos 0)), forget wd w)

unfoldable pub remove_file : ℕ → (ℕ → ℤ) → InotifyWatcher → Bool × InotifyWatcher
unfolding on_watched
remove_file wd rm_watch w = on_watched wd rm_watch (w.watched wd) w
