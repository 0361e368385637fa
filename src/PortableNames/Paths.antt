-- ===== src/PortableNames/Paths.antt =====
-- What portable_names.py accepts: every part of an accepted path is clean, and the path stays
-- below the directory that it is taken from.
use ldaca_wordflow_backend.Base.{
  ◌≡◌, refl, sym, subst, Bool, true, false, none, List, [], ◌∷◌, ◌≤◌, arith, elem, any, All, length,
  is_some, ok,
}
use ldaca_wordflow_backend.Text.{
  Text, text_eq, text_eq_iff, has_pair, join, utf8_length, UnicodeData,
}
use ldaca_wordflow_backend.PortableNames.{
  candidate_error, portable_name_error, is_forbidden, is_control, is_part, is_traversal,
  posix_parts, check_parts, check_nonempty, portable_relative_path_parts, exceeds,
  max_portable_component_bytes, max_relative_path_bytes, max_relative_path_depth,
}

-- A part that is one plain name: nothing in it separates, climbs or is a drive.
pub record IsPlain (p : Text) : Type 0 where
  pub no_slash : elem 0x2f p ≡ false
  pub no_backslash : elem 0x5c p ≡ false
  pub no_colon : elem 0x3a p ≡ false
  pub no_nul : elem 0 p ≡ false
  pub is_named : is_part p ≡ true
  pub no_climb : text_eq p (0x2e ∷ 0x2e ∷ []) ≡ false

forbids :
    (p : Text)
    → any is_forbidden p ≡ false
    → (elem 0x2f p ≡ false) × (elem 0x5c p ≡ false) × (elem 0x3a p ≡ false)
unfolding is_forbidden
forbids [] h = (refl, refl, refl)
forbids (x ∷ xs) h = ground (arith, forbids xs)

controls : (p : Text) → any is_control p ≡ false → elem 0 p ≡ false
unfolding is_control
controls [] h = refl
controls (x ∷ xs) h = ground (arith, controls xs)

module _ (u : UnicodeData) where
  candidate_error-none :
      (name candidate : Text)
      → candidate_error u name candidate true ≡ none
      → (text_eq candidate name ≡ true)
        × (text_eq candidate (u.strip candidate) ≡ true)
        × (any is_forbidden candidate ≡ false)
        × (any is_control candidate ≡ false)
        × (has_pair 0x2e candidate ≡ false)
  unfolding candidate_error
  candidate_error-none name candidate e = ground arith

  -- No surrounding space, unsupported or control character, or double dot.
  abbrev pub IsClean : Text → Type 0
  IsClean name =
      (name ≡ u.strip name)
      × (any is_forbidden name ≡ false)
      × (any is_control name ≡ false)
      × (has_pair 0x2e name ≡ false)

  -- A name without an error is its own canonical form and is clean.
  pub portable_name_error-none :
      (name : Text)
      → is_some (portable_name_error u name true) ≡ false
      → (u.nfc name ≡ name) × IsClean name
  unfolding portable_name_error
  portable_name_error-none name e =
      let facts = candidate_error-none name (u.nfc name) (ground arith) in
      let same = (text_eq_iff (u.nfc name) name).0 facts.0 in
      (
        same,
        subst IsClean same (
          (text_eq_iff (u.nfc name) (u.strip (u.nfc name))).0 facts.1,
          facts.2,
          facts.3,
          facts.4,
        ),
      )

  -- What an accepted part is: plain, in canonical form, clean and at most 255 bytes.
  pub record IsPortable (p : Text) : Type 0 where
    pub plain : IsPlain p
    pub canonical : u.nfc p ≡ p
    pub clean : IsClean p
    pub short : exceeds max_portable_component_bytes (utf8_length p) ≡ false

  part-IsPortable :
      (p : Text)
      → is_traversal p ≡ false
      → exceeds max_portable_component_bytes (utf8_length p) ≡ false
      → is_some (portable_name_error u p true) ≡ false
      → IsPortable p
  part-IsPortable p t s e =
      let (canonical, clean) = portable_name_error-none p e in
      let (slash, backslash, colon) = forbids p clean.1 in
      record {
        plain = record {
          no_slash = slash;
          no_backslash = backslash;
          no_colon = colon;
          no_nul = controls p clean.2;
          is_named = ground arith;
          no_climb = ground arith;
        };
        canonical = canonical;
        clean = clean;
        short = s;
      }

  parts-IsPortable :
      (ps : List Text)
      → any is_traversal ps ≡ false
      → any (λ p. exceeds max_portable_component_bytes (utf8_length p)) ps ≡ false
      → any (λ p. is_some (portable_name_error u p true)) ps ≡ false
      → All IsPortable ps
  parts-IsPortable [] t s e = tt
  parts-IsPortable (p ∷ ps) t s e = (
    part-IsPortable p (ground arith) (ground arith) (ground arith),
    parts-IsPortable ps (ground arith) (ground arith) (ground arith),
  )

  check_parts-ok :
      (ps qs : List Text)
      → check_parts u ps ≡ ok qs
      → (qs ≡ ps)
        × (any is_traversal ps ≡ false)
        × (length ps ≤ max_relative_path_depth)
        × (exceeds max_relative_path_bytes (utf8_length (join 0x2f ps)) ≡ false)
        × (any (λ p. exceeds max_portable_component_bytes (utf8_length p)) ps ≡ false)
        × (any (λ p. is_some (portable_name_error u p true)) ps ≡ false)
  unfolding check_parts
  check_parts-ok ps qs e = ground arith

  check_parts-IsPortable :
      (ps qs : List Text)
      → check_parts u ps ≡ ok qs
      → (qs ≡ ps) × All IsPortable ps × (length ps ≤ max_relative_path_depth)
  check_parts-IsPortable ps qs e =
      let (same, t, deep, long, s, n) = check_parts-ok ps qs e in
      (same, parts-IsPortable ps t s n, deep)

  check_nonempty-ok :
      (value : Text) (allow_root : Bool) (parts : List Text) {p : Text} {ps : List Text}
      → check_nonempty u value allow_root parts ≡ ok (p ∷ ps)
      → check_parts u (p ∷ ps) ≡ ok (p ∷ ps)
  unfolding check_nonempty
  check_nonempty-ok value allow_root [] e = ground arith
  check_nonempty-ok value allow_root (q ∷ qs) {p} {ps} e =
      let same = (check_parts-ok (q ∷ qs) (p ∷ ps) e).0 in
      subst (λ (ts : List Text). check_parts u ts ≡ ok (p ∷ ps)) (sym same) e

  pub accepted :
      (value : Text) (allow_root : Bool) {p : Text} {ps : List Text}
      → portable_relative_path_parts u value allow_root ≡ ok (p ∷ ps)
      → check_parts u (p ∷ ps) ≡ ok (p ∷ ps)
  unfolding portable_relative_path_parts
  accepted value allow_root e =
      check_nonempty-ok value allow_root (posix_parts value) (ground arith)

  check_nonempty-parts :
      (value : Text) (allow_root : Bool) (parts : List Text) {p : Text} {ps : List Text}
      → check_nonempty u value allow_root parts ≡ ok (p ∷ ps)
      → parts ≡ p ∷ ps
  unfolding check_nonempty
  check_nonempty-parts value allow_root [] e = ground arith
  check_nonempty-parts value allow_root (q ∷ qs) e = sym (check_parts-ok (q ∷ qs) _ e).0

  pub accepted-parts :
      (value : Text) (allow_root : Bool) {p : Text} {ps : List Text}
      → portable_relative_path_parts u value allow_root ≡ ok (p ∷ ps)
      → posix_parts value ≡ p ∷ ps
  unfolding portable_relative_path_parts
  accepted-parts value allow_root e =
      check_nonempty-parts value allow_root (posix_parts value) (ground arith)

  -- The parts of an accepted path are at most 32, and each is plain, canonical, clean and short.
  pub portable_relative_path_parts-IsPortable :
      (value : Text) (allow_root : Bool) (parts : List Text)
      → portable_relative_path_parts u value allow_root ≡ ok parts
      → All IsPortable parts × (length parts ≤ max_relative_path_depth)
  portable_relative_path_parts-IsPortable value allow_root [] e = (tt, omega arith)
  portable_relative_path_parts-IsPortable value allow_root (p ∷ ps) e =
      let checked = check_parts-IsPortable (p ∷ ps) (p ∷ ps) (accepted value allow_root e) in
      (checked.1, checked.2)
