-- ===== src/Fs/Directory.antt =====
-- Reading a directory: the entries in the buffer that getdents64 fills
-- (.mooncakes/moonbitlang/async/src/fs/dir.c) and the iteration over them (dir.mbt there), on Linux. A
-- buffer is a list of bytes, and a read past its end is `none`. A name stays in bytes. What the
-- kernel answers to each `readdir` is a list, after which there is nothing more.
pub mod Entries
use moonbit.Prelude.{
  ℕ, zero, suc, ◌+◌, Bool, true, false, not, ◌&&◌, ◌||◌, Option, none, some, List, [], ◌∷◌, ◌++◌,
  ◌==◌, leb, if◌then◌else◌, length,
}
use moonbit.Prelude.Int.{ℤ, pos, negsuc}
use moonbit.Prelude.Bytes.{drop, take, read_le}

-- `sizeof(sys_dirent) + NAME_MAX`: the fields d_ino at 0, d_off at 8, d_reclen at 16, d_type at 18 and
-- d_name at 19, rounded up to 24.
abbrev pub dir_buffer_min_size : ℕ
dir_buffer_min_size = 24 + 255

unfoldable pub byte_at : List ℕ → Option ℕ
byte_at [] = none
byte_at (b ∷ bytes) = some b

-- `none` where no 0 ends the text.
unfoldable pub strlen : List ℕ → Option ℕ
strlen [] = none
strlen (b ∷ bytes) =
    let rest = strlen bytes in
    if b == 0 then some 0 else elim rest [ none ↦ none | some n ↦ some (suc n) ]

unfoldable pub dir_entry_length : List ℕ → ℕ → Option ℕ
unfolding read_le drop
dir_entry_length buf offset = read_le 2 (drop 16 (drop offset buf))

unfoldable pub dir_entry_get_name : List ℕ → ℕ → List ℕ
unfolding drop
dir_entry_get_name buf offset = drop 19 (drop offset buf)

unfoldable pub dir_entry_get_name_len : List ℕ → ℕ → Option ℕ
unfolding strlen dir_entry_get_name
dir_entry_get_name_len buf offset = strlen (dir_entry_get_name buf offset)

-- DT_UNKNOWN is 0 and DT_DIR is 4.
unfoldable pub is_dir_type : ℕ → ℤ
is_dir_type d_type = if d_type == 0 then negsuc 0 else if d_type == 4 then pos 1 else pos 0

-- The answer for a d_type.
unfoldable pub is_dir_of : Option ℕ → Option ℤ
unfolding is_dir_type
is_dir_of none = none
is_dir_of (some d_type) = some (is_dir_type d_type)

unfoldable pub dir_entry_is_dir : List ℕ → ℕ → Option ℤ
unfolding drop byte_at is_dir_of
dir_entry_is_dir buf offset = is_dir_of (byte_at (drop 18 (drop offset buf)))

-- Whether a character is the dot.
unfoldable pub dot : Option ℕ → Option Bool
dot none = none
dot (some c) = some (c == b'.')

unfoldable pub dir_entry_is_hidden : List ℕ → ℕ → Option Bool
unfolding byte_at dir_entry_get_name dot
dir_entry_is_hidden buf offset = dot (byte_at (dir_entry_get_name buf offset))

unfoldable pub dir_entry_get_file_id : List ℕ → ℕ → Option ℕ
unfolding read_le drop
dir_entry_get_file_id buf offset = read_le 8 (drop offset buf)

pub record DirectoryEntry : Type 0 where
  pub name : List ℕ
  pub is_dir : Bool
  pub file_id : ℕ

pub data DirectoryState : Type 0 where
  no_more_entry has_buffered_entry need_more_entry : DirectoryState

-- What a job to read a directory gives: the bytes that it has written, or an error.
pub data Answer : Type 0 where
  filled : List ℕ → Answer
  failed : ℤ → Answer

-- The directory, with the answers to come.
pub record Directory : Type 0 where
  pub buf : List ℕ
  pub offset : ℕ
  pub count : ℕ
  pub job_ret : ℕ
  pub state : DirectoryState
  pub answers : List Answer

unfoldable pub from_io_handle : List ℕ → List Answer → Directory
from_io_handle buf answers = record {
  buf = buf;
  offset = 0;
  count = 0;
  job_ret = 0;
  state = need_more_entry;
  answers = answers;
}

-- After the state was looked at: an entry is in the buffer, there is none, or an error is raised.
pub data Refilled : Type 0 where
  ready : Directory → Refilled
  finished : Directory → Refilled
  raised : ℤ → Refilled

unfoldable pub fill : List Answer → Directory → Refilled
unfolding drop
fill [] d = finished (record d { offset = 0; count = 0; job_ret = 0; state = no_more_entry })
fill (filled bytes ∷ answers) d =
    let d' = record d {
      buf = bytes ++ drop (length bytes) d.buf;
      offset = 0;
      count = 0;
      job_ret = length bytes;
      answers = answers;
    } in
    if length bytes == 0
    then finished (record d' { state = no_more_entry })
    else ready (record d' { state = has_buffered_entry })
fill (failed errno ∷ answers) d = raised errno

unfoldable pub refill : DirectoryState → Directory → Refilled
unfolding fill
refill no_more_entry d = finished d
refill has_buffered_entry d = ready d
refill need_more_entry d = fill d.answers d

-- Past the entry at the offset.
unfoldable pub advance : ℕ → Directory → Directory
advance entry_len d =
    let offset = d.offset + entry_len in
    record d {
      offset = offset;
      count = d.count + 1;
      state = if leb d.job_ret offset then need_more_entry else d.state;
    }

unfoldable pub is_special : List ℕ → Bool
is_special (a ∷ []) = a == b'.'
is_special (a ∷ b ∷ []) = a == b'.' && b == b'.'
is_special _ = false

-- What becomes of the entry at the offset: it is skipped, given back, or a read is out of bounds.
pub data Looked : Type 0 where
  skipped : Directory → Looked
  found : DirectoryEntry → Directory → Looked
  out_of_bounds : Looked

-- `file_kind_by_path` is asked where the entry does not tell its kind.
unfoldable pub is_directory : (List ℕ → Bool) → List ℕ → ℤ → Bool
is_directory by_path name (pos n) = not (n == 0)
is_directory by_path name (negsuc n) = by_path name

unfoldable pub described : (List ℕ → Bool) → Directory → List ℕ → Option ℤ → Option ℕ → Looked
unfolding is_directory
described by_path d' name (some kind) (some file_id) =
    found (record { name = name; is_dir = is_directory by_path name kind; file_id = file_id }) d'
described by_path d' name (some kind) none = out_of_bounds
described by_path d' name none file_id = out_of_bounds

-- After the test on hidden entries; `d'` is past the entry.
unfoldable pub named : (List ℕ → Bool) → Bool → Directory → Directory → Looked
unfolding dir_entry_get_name dir_entry_get_name_len dir_entry_is_dir dir_entry_get_file_id
    is_special described take
named by_path include_special d d' = elim (dir_entry_get_name_len d.buf d.offset) [
  | none ↦ out_of_bounds
  | some len ↦
      let name = take len (dir_entry_get_name d.buf d.offset) in
      if not include_special && is_special name
      then skipped d'
      else described by_path d' name (dir_entry_is_dir d.buf d.offset)
          (dir_entry_get_file_id d.buf d.offset)
]

unfoldable pub look : (List ℕ → Bool) → Bool → Bool → Directory → Looked
unfolding dir_entry_length dir_entry_is_hidden advance named
look by_path include_hidden include_special d = elim (dir_entry_length d.buf d.offset) [
  | none ↦ out_of_bounds
  | some entry_len ↦ elim (dir_entry_is_hidden d.buf d.offset) [
    | none ↦ out_of_bounds
    | some hidden ↦
        if not include_hidden && hidden
        then skipped (advance entry_len d)
        else named by_path include_special d (advance entry_len d)
  ]
]

pub data Next : Type 0 where
  entry : DirectoryEntry → Directory → Next
  ended : Directory → Next
  error : ℤ → Next
  fault : Next
  out_of_fuel : Next

-- What `next_aux` does with an entry, and with what the state allows; `again` is its recursive call.
unfoldable pub on_looked : (Directory → Next) → Looked → Next
on_looked again out_of_bounds = fault
on_looked again (found e d) = entry e d
on_looked again (skipped d) = again d

unfoldable pub on_refilled : (Directory → Next) → (List ℕ → Bool) → Bool → Bool → Refilled → Next
unfolding on_looked look
on_refilled again by_path include_hidden include_special (finished d) = ended d
on_refilled again by_path include_hidden include_special (raised errno) = error errno
on_refilled again by_path include_hidden include_special (ready d) =
    on_looked again (look by_path include_hidden include_special d)

-- `Directory::next_aux`, on fuel: one for each entry that is skipped, and one more.
unfoldable pub next_aux : ℕ → (List ℕ → Bool) → Bool → Bool → Directory → Next
unfolding on_refilled refill
next_aux zero by_path include_hidden include_special d = out_of_fuel
next_aux (suc fuel) by_path include_hidden include_special d =
    on_refilled (λ d'. next_aux fuel by_path include_hidden include_special d') by_path
      include_hidden include_special (refill d.state d)

-- What the loop of `Directory::read_all` does with an entry; `again` is the rest of the loop.
unfoldable pub collect : (Directory → Option (List (List ℕ))) → Next → Option (List (List ℕ))
collect again (ended d) = some []
collect again (entry e d) = elim (again d) [ none ↦ none | some names ↦ some (e.name ∷ names) ]
collect again (error errno) = none
collect again fault = none
collect again out_of_fuel = none

-- The names that `Directory::read_all` collects, `none` where it does not come to the end.
unfoldable pub read_all : ℕ → (List ℕ → Bool) → Bool → Bool → Directory → Option (List (List ℕ))
unfolding next_aux collect
read_all zero by_path include_hidden include_special d = none
read_all (suc fuel) by_path include_hidden include_special d =
    collect (λ d'. read_all fuel by_path include_hidden include_special d')
      (next_aux (suc fuel) by_path include_hidden include_special d)
