-- ===== src/PortableNames/Tests.antt =====
-- Names and paths of portable_names.py at concrete inputs.
use ldaca_wordflow_backend.Base.{
  ℕ, ◌+◌, ◌≤◌, ◌≡◌, refl, true, false, ◌&&◌, some, List, [], ◌∷◌, All, map, leb, length,
  if◌then◌else◌, ok, err,
}
use ldaca_wordflow_backend.Text.{Text, codes, split, join, UnicodeData, text_in, utf8_length}
use ldaca_wordflow_backend.PortableNames.{
  portable_name_error, portable_relative_path_parts, posix_parts, is_anchored, is_forbidden,
  is_control, windows_reserved_names, reserved_name, traversal, max_relative_path_depth,
}
use ldaca_wordflow_backend.PortableNames.Paths.{IsPortable, portable_relative_path_parts-IsPortable}
use ldaca_wordflow_backend.PortableNames.Roundtrip.{
  portable_relative_path_parts-join, resolve, descend, resolve-accepted,
}

abbrev lower : ℕ → ℕ
lower c = if leb 0x41 c && leb c 0x5a then c + 32 else c

-- The tables on ASCII texts without surrounding space.
abbrev ascii : UnicodeData
ascii = record { nfc = λ t. t; casefold = map lower; strip = λ t. t }

abbrev given : Text
given = codes "Corpora//./My Set/a.csv"

abbrev first_part : Text
first_part = codes "Corpora"

abbrev other_parts : List Text
other_parts = codes "My Set" ∷ codes "a.csv" ∷ []

reserved : portable_name_error ascii (codes "NUL.txt") true ≡ some reserved_name
unfolding portable_name_error is_forbidden is_control windows_reserved_names text_in
reserved = refl

climbing : portable_relative_path_parts ascii (codes "a/../b") false ≡ err traversal
unfolding portable_relative_path_parts is_anchored posix_parts split text_in
climbing = refl

given_accepted : portable_relative_path_parts ascii given false ≡ ok (first_part ∷ other_parts)
unfolding portable_relative_path_parts portable_name_error is_forbidden is_control
    windows_reserved_names is_anchored posix_parts split join text_in utf8_length
given_accepted = refl

portable_relative_path_parts-IsPortable_example :
    All (IsPortable ascii) (first_part ∷ other_parts)
    × (length (first_part ∷ other_parts) ≤ max_relative_path_depth)
portable_relative_path_parts-IsPortable_example =
    portable_relative_path_parts-IsPortable ascii given false (first_part ∷ other_parts)
      given_accepted

portable_relative_path_parts-join_example :
    portable_relative_path_parts ascii (join 0x2f (first_part ∷ other_parts)) false
    ≡ ok (first_part ∷ other_parts)
portable_relative_path_parts-join_example =
    portable_relative_path_parts-join ascii given false given_accepted

resolve-accepted_example :
    resolve (codes "data" ∷ []) (split 0x2f given)
    ≡ descend (codes "data" ∷ []) (first_part ∷ other_parts)
resolve-accepted_example = resolve-accepted ascii (codes "data" ∷ []) given false given_accepted
