-- ===== src/Fs/Directory/Entries.antt =====
-- One entry as getdents64 writes it, and what is read of it
-- (.mooncakes/moonbitlang/async/src/fs/dir.c).
use moonbit.Prelude.{
  ℕ, ◌+◌, ◌^◌, ◌<◌, ◌≡◌, refl, ap, ◌∙◌, Bool, false, not, ◌&&◌, ◌||◌, some, List, [], ◌∷◌, ◌++◌,
  ◌==◌, if◌then◌else◌, length, length-append, All, arith,
}
use moonbit.Prelude.Int.{ℤ}
use moonbit.Prelude.Bytes.{drop, drop-length, take, read_le, write_le, read_le-write_le}
use moonbit.Fs.Directory.{
  byte_at, dot, is_dir_of, strlen, dir_entry_length, dir_entry_get_name, dir_entry_get_name_len,
  is_dir_type, dir_entry_is_dir, dir_entry_is_hidden, dir_entry_get_file_id, DirectoryEntry,
  Directory, advance, is_special, skipped, found, is_directory, described, named, look,
}

-- The fields of an entry; what follows the 0 at the end of the name aligns the next entry.
pub record Dirent : Type 0 where
  pub ino : ℕ
  pub off : ℕ
  pub d_type : ℕ
  pub chars : List ℕ
  pub padding : List ℕ

unfoldable pub size : Dirent → ℕ
size e = 20 + length e.chars + length e.padding

unfoldable pub encode : Dirent → List ℕ
unfolding write_le size
encode e =
    write_le 8 e.ino
    ++ (write_le 8 e.off ++ (write_le 2 (size e) ++ (e.d_type ∷ (e.chars ++ (0 ∷ e.padding)))))

pub record IsDirent (e : Dirent) : Type 0 where
  pub ino_fits : e.ino < 256 ^ 8
  pub size_fits : size e < 256 ^ 2
  pub no_zero : All (λ c. (c == 0) ≡ false) e.chars

pub length-encode : (e : Dirent) → length (encode e) ≡ size e
unfolding encode size write_le
length-encode e = omega (arith, length-append e.chars (0 ∷ e.padding))

pub size_pos : (e : Dirent) → 0 < size e
unfolding size
size_pos e = omega arith

-- The first character is the dot.
unfoldable pub starts_with_dot : List ℕ → Bool
starts_with_dot [] = false
starts_with_dot (c ∷ chars) = c == b'.'

module _ (e : Dirent) (after : List ℕ) where
  from_length :
      drop 16 (encode e ++ after)
      ≡ write_le 2 (size e) ++ ((e.d_type ∷ (e.chars ++ (0 ∷ e.padding))) ++ after)
  unfolding encode write_le drop size
  from_length = refl

  from_type : drop 18 (encode e ++ after) ≡ e.d_type ∷ ((e.chars ++ (0 ∷ e.padding)) ++ after)
  unfolding encode write_le drop size
  from_type = refl

  from_name : drop 19 (encode e ++ after) ≡ (e.chars ++ (0 ∷ e.padding)) ++ after
  unfolding encode write_le drop size
  from_name = refl

  from_ino :
      encode e ++ after
      ≡ write_le 8 e.ino
        ++ ((write_le 8 e.off ++ (write_le 2 (size e) ++ (e.d_type ∷ (e.chars ++ (0 ∷ e.padding)))))
            ++ after)
  unfolding encode write_le size
  from_ino = refl

strlen_lem :
    (chars padding after : List ℕ)
    → All (λ c. (c == 0) ≡ false) chars
    → strlen ((chars ++ (0 ∷ padding)) ++ after) ≡ some (length chars)
unfolding strlen
strlen_lem [] padding after h = refl
strlen_lem (c ∷ chars) padding after h = rw (h.0, strlen_lem chars padding after h.1) refl

take_name :
    (chars padding after : List ℕ) → take (length chars) ((chars ++ padding) ++ after) ≡ chars
unfolding take
take_name [] padding after = refl
take_name (c ∷ chars) padding after = ap (λ l. c ∷ l) (take_name chars padding after)

first_char :
    (chars padding after : List ℕ)
    → dot (byte_at ((chars ++ (0 ∷ padding)) ++ after)) ≡ some (starts_with_dot chars)
unfolding byte_at dot starts_with_dot
first_char [] padding after = refl
first_char (c ∷ chars) padding after = refl

-- What there is to see of an entry.
unfoldable pub entry_of : (List ℕ → Bool) → Dirent → DirectoryEntry
unfolding is_directory is_dir_type
entry_of by_path e = record {
  name = e.chars;
  is_dir = is_directory by_path e.chars (is_dir_type e.d_type);
  file_id = e.ino;
}

unfoldable pub is_hidden_from : Bool → Bool → Dirent → Bool
unfolding starts_with_dot is_special
is_hidden_from include_hidden include_special e =
    not include_hidden && starts_with_dot e.chars || not include_special && is_special e.chars

-- What is made of the parts of an entry, once they were read.
look_parts :
    (by_path : List ℕ → Bool) (include_hidden include_special : Bool) (d : Directory) (n l i : ℕ)
    (h : Bool) (k : ℤ) (name : List ℕ)
    → dir_entry_length d.buf d.offset ≡ some n
    → dir_entry_is_hidden d.buf d.offset ≡ some h
    → dir_entry_get_name_len d.buf d.offset ≡ some l
    → take l (dir_entry_get_name d.buf d.offset) ≡ name
    → dir_entry_is_dir d.buf d.offset ≡ some k
    → dir_entry_get_file_id d.buf d.offset ≡ some i
    → look by_path include_hidden include_special d ≡ (
        if not include_hidden && h || not include_special && is_special name
        then skipped (advance n d)
        else found
            (record { name = name; is_dir = is_directory by_path name k; file_id = i })
            (advance n d))
unfolding look named described
look_parts by_path include_hidden include_special d n l i h k name p q r s t u = ground arith

module _ (e : Dirent) (valid : IsDirent e) (before after buf : List ℕ)
    (here : buf ≡ before ++ (encode e ++ after)) where
  at_entry : drop (length before) buf ≡ encode e ++ after
  at_entry = ap (drop (length before)) here ∙ drop-length before (encode e ++ after)

  dir_entry_length_lem : dir_entry_length buf (length before) ≡ some (size e)
  unfolding dir_entry_length
  dir_entry_length_lem =
      ap (λ l. read_le 2 (drop 16 l)) at_entry
      ∙ ap (read_le 2) (from_length e after)
      ∙ read_le-write_le 2 (size e) _ valid.size_fits

  dir_entry_get_name_lem :
      dir_entry_get_name buf (length before) ≡ (e.chars ++ (0 ∷ e.padding)) ++ after
  unfolding dir_entry_get_name
  dir_entry_get_name_lem = ap (drop 19) at_entry ∙ from_name e after

  dir_entry_get_name_len_lem : dir_entry_get_name_len buf (length before) ≡ some (length e.chars)
  unfolding dir_entry_get_name_len
  dir_entry_get_name_len_lem =
      ap strlen dir_entry_get_name_lem ∙ strlen_lem e.chars e.padding after valid.no_zero

  dir_entry_is_dir_lem : dir_entry_is_dir buf (length before) ≡ some (is_dir_type e.d_type)
  unfolding dir_entry_is_dir byte_at is_dir_of
  dir_entry_is_dir_lem =
      ap (λ l. is_dir_of (byte_at (drop 18 l))) at_entry
      ∙ ap (λ l. is_dir_of (byte_at l)) (from_type e after)

  dir_entry_is_hidden_lem : dir_entry_is_hidden buf (length before) ≡ some (starts_with_dot e.chars)
  unfolding dir_entry_is_hidden
  dir_entry_is_hidden_lem =
      ap (λ l. dot (byte_at l)) dir_entry_get_name_lem ∙ first_char e.chars e.padding after

  dir_entry_get_file_id_lem : dir_entry_get_file_id buf (length before) ≡ some e.ino
  unfolding dir_entry_get_file_id
  dir_entry_get_file_id_lem =
      ap (read_le 8) at_entry
      ∙ ap (read_le 8) (from_ino e after)
      ∙ read_le-write_le 8 e.ino _ valid.ino_fits

  -- An entry is given back with its name, kind and number, and skipped if it is hidden from view; the
  -- next one is looked for behind it.
  pub look_lem :
      (by_path : List ℕ → Bool) (include_hidden include_special : Bool) (d : Directory)
      → d.buf ≡ buf
      → d.offset ≡ length before
      → look by_path include_hidden include_special d ≡ (
          if is_hidden_from include_hidden include_special e
          then skipped (advance (size e) d)
          else found (entry_of by_path e) (advance (size e) d))
  unfolding is_hidden_from entry_of
  look_lem by_path include_hidden include_special d same offset =
      look_parts by_path include_hidden include_special d (size e) (length e.chars) e.ino
        (starts_with_dot e.chars) (is_dir_type e.d_type) e.chars
        (rw (same, offset) dir_entry_length_lem) (rw (same, offset) dir_entry_is_hidden_lem)
        (rw (same, offset) dir_entry_get_name_len_lem)
        (rw (same, offset, dir_entry_get_name_lem) (take_name e.chars (0 ∷ e.padding) after))
        (rw (same, offset) dir_entry_is_dir_lem) (rw (same, offset) dir_entry_get_file_id_lem)
