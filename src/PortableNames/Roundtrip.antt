-- ===== src/PortableNames/Roundtrip.antt =====
-- An accepted path of portable_names.py is written back and read again, and leads below the
-- directory that it is taken from.
use ldaca_wordflow_backend.Base.{
  ℕ, ◌≡◌, refl, ◌∙◌, ap, Bool, false, false≢true, not, List, [], ◌∷◌, arith, ◌==◌, elem,
  elem-append, All, select, if◌then◌else◌, ok,
}
use ldaca_wordflow_backend.Text.{Text, text_eq, split, join, UnicodeData, split-join}
use ldaca_wordflow_backend.PortableNames.{
  is_part, is_anchored, posix_parts, check_nonempty, portable_relative_path_parts,
}
use ldaca_wordflow_backend.PortableNames.Paths.{
  IsPlain, IsPortable, portable_relative_path_parts-IsPortable, accepted, accepted-parts,
}

elem-join :
    (c : ℕ) (ps : List Text)
    → (c == 0x2f) ≡ false
    → All (λ p. elem c p ≡ false) ps
    → elem c (join 0x2f ps) ≡ false
unfolding join
elem-join c [] s h = refl
elem-join c (p ∷ []) s h = h.0
elem-join c (p ∷ q ∷ ps) s h =
    ground (arith, elem-append c p (0x2f ∷ join 0x2f (q ∷ ps)), elem-join c (q ∷ ps) s h.1)

is_anchored-join :
    (p : Text) (ps : List Text) → IsPlain p → is_anchored (join 0x2f (p ∷ ps)) ≡ false
unfolding join is_anchored
is_anchored-join [] [] h = refl
is_anchored-join (x ∷ []) [] h = ground (arith, h.no_slash)
is_anchored-join (x ∷ y ∷ p) [] h = ground (arith, h.no_slash, h.no_colon)
is_anchored-join [] (q ∷ ps) h = absurd (false≢true h.is_named)
is_anchored-join (x ∷ []) ([] ∷ []) h = ground (arith, h.no_slash)
is_anchored-join (x ∷ []) (q ∷ ps) h = ground (arith, h.no_slash)
is_anchored-join (x ∷ y ∷ p) (q ∷ ps) h = ground (arith, h.no_slash, h.no_colon)

select-parts : (ps : List Text) → All IsPlain ps → select is_part ps ≡ ps
select-parts [] h = refl
select-parts (p ∷ ps) h = ground (arith, select-parts ps h.1, h.0.is_named)

no_slashes : (ps : List Text) → All IsPlain ps → All (λ p. elem 0x2f p ≡ false) ps
no_slashes [] h = tt
no_slashes (p ∷ ps) h = (h.0.no_slash, no_slashes ps h.1)

no_backslashes : (ps : List Text) → All IsPlain ps → All (λ p. elem 0x5c p ≡ false) ps
no_backslashes [] h = tt
no_backslashes (p ∷ ps) h = (h.0.no_backslash, no_backslashes ps h.1)

no_nuls : (ps : List Text) → All IsPlain ps → All (λ p. elem 0 p ≡ false) ps
no_nuls [] h = tt
no_nuls (p ∷ ps) h = (h.0.no_nul, no_nuls ps h.1)

posix_parts-join :
    (p : Text) (ps : List Text) → All IsPlain (p ∷ ps) → posix_parts (join 0x2f (p ∷ ps)) ≡ p ∷ ps
unfolding posix_parts
posix_parts-join p ps h =
    ap (select is_part) (split-join 0x2f p ps (no_slashes (p ∷ ps) h)) ∙ select-parts (p ∷ ps) h

All-plain : (u : UnicodeData) (ps : List Text) → All (IsPortable u) ps → All IsPlain ps
All-plain u [] h = tt
All-plain u (p ∷ ps) h = (h.0.plain, All-plain u ps h.1)

module _ (u : UnicodeData) where
  -- An accepted path, written with single slashes, is accepted again with the same parts.
  pub portable_relative_path_parts-join :
      (value : Text) (allow_root : Bool) {p : Text} {ps : List Text}
      → portable_relative_path_parts u value allow_root ≡ ok (p ∷ ps)
      → portable_relative_path_parts u (join 0x2f (p ∷ ps)) allow_root ≡ ok (p ∷ ps)
  unfolding portable_relative_path_parts check_nonempty
  portable_relative_path_parts-join value allow_root {p} {ps} e =
      let portable = portable_relative_path_parts-IsPortable u value allow_root (p ∷ ps) e in
      let plain = All-plain u (p ∷ ps) portable.0 in
      ground (
        arith,
        elem-join 0 (p ∷ ps) refl (no_nuls (p ∷ ps) plain),
        elem-join 0x5c (p ∷ ps) refl (no_backslashes (p ∷ ps) plain),
        is_anchored-join p ps plain.0,
        posix_parts-join p ps plain,
        accepted u value allow_root e,
      )

abbrev parent : List Text → List Text
parent [] = []
parent (d ∷ ds) = ds

-- The directory that a path leads to from a directory, both as the names from the innermost out:
-- an empty or single-dot segment stays, a double dot climbs.
pub resolve : List Text → List Text → List Text
resolve directory [] = directory
resolve directory (s ∷ segments) =
    resolve
      (if not (is_part s)
        then directory
        else if text_eq s (0x2e ∷ 0x2e ∷ [])
        then parent directory
        else s ∷ directory)
      segments

-- The names of a path below a directory.
abbrev pub descend : List Text → List Text → List Text
descend directory [] = directory
descend directory (p ∷ ps) = descend (p ∷ directory) ps

resolve-plain :
    (directory ps : List Text) → All IsPlain ps → resolve directory ps ≡ descend directory ps
unfolding resolve
resolve-plain directory [] h = refl
resolve-plain directory (p ∷ ps) h =
    ground (arith, resolve-plain (p ∷ directory) ps h.1, h.0.is_named, h.0.no_climb)

resolve-select :
    (directory segments : List Text)
    → resolve directory segments ≡ resolve directory (select is_part segments)
unfolding resolve
resolve-select directory [] = refl
resolve-select directory (s ∷ segments) = ground (
  arith,
  resolve-select directory segments,
  resolve-select (parent directory) segments,
  resolve-select (s ∷ directory) segments,
)

-- From any directory, the segments of an accepted path as it was given lead to the accepted parts
-- below that directory: no segment climbs.
pub resolve-accepted :
    (u : UnicodeData) (directory : List Text) (value : Text) (allow_root : Bool) {p : Text}
    {ps : List Text}
    → portable_relative_path_parts u value allow_root ≡ ok (p ∷ ps)
    → resolve directory (split 0x2f value) ≡ descend directory (p ∷ ps)
unfolding posix_parts
resolve-accepted u directory value allow_root {p} {ps} e =
    let portable = portable_relative_path_parts-IsPortable u value allow_root (p ∷ ps) e in
    let plain = All-plain u (p ∷ ps) portable.0 in
    resolve-select directory (split 0x2f value)
    ∙ (ap (resolve directory) (accepted-parts u value allow_root e)
        ∙ resolve-plain directory (p ∷ ps) plain)
