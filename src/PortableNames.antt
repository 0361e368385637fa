-- ===== src/PortableNames.antt =====
-- src/ldaca_wordflow/shared/portable_names.py: names and relative paths that every supported
-- filesystem stores alike. Texts are lists of code points; NFC, `casefold` and `strip` are Python's
-- Unicode tables, a parameter. Of pathlib the model has what the code uses: the parts of a relative
-- POSIX path, and that a path without backslashes has a Windows drive or root exactly when it begins
-- with a slash or has a colon in the second place.
pub mod Paths
pub mod Roundtrip
mod Tests
use ldaca_wordflow_backend.Base.{
  ℕ, Bool, true, false, ◌&&◌, ◌||◌, not, Option, none, some, List, [], ◌∷◌, ◌++◌, ◌==◌, ltb, elem,
  any, select, length, is_empty, is_some, if◌then◌else◌, Result, ok, err,
}
use ldaca_wordflow_backend.Text.{
  Text, codes, text_eq, text_in, ends_with, has_pair, before, split, join, utf8_length, UnicodeData,
}

abbrev pub max_portable_component_bytes : ℕ
max_portable_component_bytes = 255

abbrev pub max_relative_path_bytes : ℕ
max_relative_path_bytes = 1024

abbrev pub max_relative_path_depth : ℕ
max_relative_path_depth = 32

unfoldable pub windows_reserved_names : List Text
windows_reserved_names =
    codes "con"
    ∷ codes "prn"
    ∷ codes "aux"
    ∷ codes "nul"
    ∷ codes "com1"
    ∷ codes "com2"
    ∷ codes "com3"
    ∷ codes "com4"
    ∷ codes "com5"
    ∷ codes "com6"
    ∷ codes "com7"
    ∷ codes "com8"
    ∷ codes "com9"
    ∷ codes "lpt1"
    ∷ codes "lpt2"
    ∷ codes "lpt3"
    ∷ codes "lpt4"
    ∷ codes "lpt5"
    ∷ codes "lpt6"
    ∷ codes "lpt7"
    ∷ codes "lpt8"
    ∷ codes "lpt9"
    ∷ []

-- `<>:"/\|?*`
unfoldable pub is_forbidden : ℕ → Bool
is_forbidden c = elem c (0x3c ∷ 0x3e ∷ 0x3a ∷ 0x22 ∷ 0x2f ∷ 0x5c ∷ 0x7c ∷ 0x3f ∷ 0x2a ∷ [])

unfoldable pub is_control : ℕ → Bool
is_control c = ltb c 32 || c == 127

pub data NameError : Type 0 where
  empty_name surrounded_name noncanonical_name bad_ending forbidden_character : NameError
  control_character dotted_name reserved_name : NameError

pub data PathError : Type 0 where
  not_portable not_relative empty_path traversal too_deep too_long : PathError
  component_too_long not_encodable component_not_portable : PathError

-- `len(text.encode("utf-8")) > limit`; a text that cannot be encoded raises.
abbrev pub exceeds : ℕ → Option ℕ → Bool
exceeds limit none = false
exceeds limit (some n) = ltb limit n

module _ (u : UnicodeData) where
  -- The tests of `portable_name_error` on the candidate.
  candidate_error : Text → Text → Bool → Option NameError
  candidate_error name candidate exact =
      if is_empty candidate
      then some empty_name
      else if exact && (not (text_eq candidate name) || not (text_eq candidate (u.strip candidate)))
      then some surrounded_name
      else if not exact && not (text_eq candidate (u.strip name))
      then some noncanonical_name
      else if ends_with 0x2e candidate || ends_with 0x20 candidate
      then some bad_ending
      else if any is_forbidden candidate
      then some forbidden_character
      else if any is_control candidate
      then some control_character
      else if has_pair 0x2e candidate
      then some dotted_name
      else if text_in (u.casefold (before 0x2e candidate)) windows_reserved_names
      then some reserved_name
      else none

  unfoldable pub portable_name_error : Text → Bool → Option NameError
  unfolding candidate_error
  portable_name_error name exact =
      candidate_error name (if exact then u.nfc name else u.strip (u.nfc name)) exact

  unfoldable pub portable_collision_key : Text → Text
  portable_collision_key name = u.casefold (u.nfc name)

-- `windows.drive or windows.root or posix.is_absolute()`
unfoldable pub is_anchored : Text → Bool
is_anchored [] = false
is_anchored (x ∷ []) = x == 0x2f
is_anchored (x ∷ y ∷ t) = x == 0x2f || y == 0x3a

-- An empty piece or a single dot is no part of a path.
abbrev pub is_part : Text → Bool
is_part part = not (is_empty part) && not (text_eq part (0x2e ∷ []))

-- `PurePosixPath(value).parts` of a relative path
unfoldable pub posix_parts : Text → List Text
posix_parts value = select is_part (split 0x2f value)

-- `part in {"", ".", ".."}`
abbrev pub is_traversal : Text → Bool
is_traversal part = not (is_part part) || text_eq part (0x2e ∷ 0x2e ∷ [])

module _ (u : UnicodeData) where
  pub check_parts : List Text → Result PathError (List Text)
  check_parts parts =
      if any is_traversal parts
      then err traversal
      else if ltb max_relative_path_depth (length parts)
      then err too_deep
      else if not (is_some (utf8_length (join 0x2f parts)))
      then err not_encodable
      else if exceeds max_relative_path_bytes (utf8_length (join 0x2f parts))
      then err too_long
      else if any (λ p. exceeds max_portable_component_bytes (utf8_length p)) parts
      then err component_too_long
      else if any (λ p. is_some (portable_name_error u p true)) parts
      then err component_not_portable
      else ok parts

  check_nonempty : Text → Bool → List Text → Result PathError (List Text)
  unfolding check_parts
  check_nonempty value allow_root [] =
      if allow_root && text_in (u.strip value) ([] ∷ (0x2e ∷ []) ∷ [])
      then ok []
      else err empty_path
  check_nonempty value allow_root (p ∷ ps) = check_parts (p ∷ ps)

  unfoldable pub portable_relative_path_parts : Text → Bool → Result PathError (List Text)
  unfolding check_nonempty
  portable_relative_path_parts value allow_root =
      if elem 0 value || elem 0x5c value
      then err not_portable
      else if is_anchored value
      then err not_relative
      else check_nonempty value allow_root (posix_parts value)
