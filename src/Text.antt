-- ===== src/Text.antt =====
-- Python texts as lists of code points, with the operations that the modelled code uses.
use Prim.Native.Char.{code}
use Prim.Native.String.{String}
use ldaca_wordflow_backend.Base.{
  ℕ, ◌+◌, ◌≡◌, refl, ◌↔◌, Bool, true, false, ◌&&◌, ◌||◌, Option, none, some, List, [], ◌∷◌, ◌++◌,
  arith, ◌==◌, ltb, leb, elem, if◌then◌else◌, All,
}

abbrev pub Text : Type 0
Text = List ℕ

-- A literal of the source.
abbrev pub codes : String → Text
codes String.[] = []
codes (String.◌∷◌ c s) = code c ∷ codes s

-- `a == b`
unfoldable pub text_eq : Text → Text → Bool
text_eq [] [] = true
text_eq (x ∷ xs) (y ∷ ys) = x == y && text_eq xs ys
text_eq _ _ = false

pub text_eq_iff : (a b : Text) → (text_eq a b ≡ true) ↔ (a ≡ b)
unfolding text_eq
text_eq_iff [] [] = ground arith
text_eq_iff [] (y ∷ ys) = ground arith
text_eq_iff (x ∷ xs) [] = ground arith
text_eq_iff (x ∷ xs) (y ∷ ys) = ground (arith, text_eq_iff xs ys)

-- `text in {…}`
unfoldable pub text_in : Text → List Text → Bool
unfolding text_eq
text_in a [] = false
text_in a (b ∷ bs) = text_eq a b || text_in a bs

-- `text.endswith(c)` for one character
abbrev pub ends_with : ℕ → Text → Bool
ends_with c [] = false
ends_with c (x ∷ []) = x == c
ends_with c (x ∷ y ∷ ys) = ends_with c (y ∷ ys)

-- `cc in text`
abbrev pub has_pair : ℕ → Text → Bool
has_pair c [] = false
has_pair c (x ∷ []) = false
has_pair c (x ∷ y ∷ ys) = (x == c && y == c) || has_pair c (y ∷ ys)

-- `text.split(c, 1)[0]`
abbrev pub before : ℕ → Text → Text
before c [] = []
before c (x ∷ xs) = let rest = before c xs in if x == c then [] else x ∷ rest

-- One character put before the first piece of a split.
abbrev pub extend : ℕ → List Text → List Text
extend x [] = (x ∷ []) ∷ []
extend x (p ∷ ps) = (x ∷ p) ∷ ps

-- `text.split(c)`
unfoldable pub split : ℕ → Text → List Text
split c [] = [] ∷ []
split c (x ∷ xs) = let rest = split c xs in if x == c then [] ∷ rest else extend x rest

-- `c.join(parts)`
unfoldable pub join : ℕ → List Text → Text
join c [] = []
join c (p ∷ []) = p
join c (p ∷ q ∷ ps) = p ++ c ∷ join c (q ∷ ps)

-- The number of UTF-8 bytes of a code point; a surrogate cannot be encoded.
abbrev pub utf8_width : ℕ → Option ℕ
utf8_width c =
    if ltb c 0x80
    then some 1
    else if ltb c 0x800
    then some 2
    else if leb 0xd800 c && leb c 0xdfff
    then none
    else if ltb c 0x10000
    then some 3
    else some 4

abbrev pub add_width : Option ℕ → Option ℕ → Option ℕ
add_width (some a) (some b) = some (a + b)
add_width _ _ = none

-- `len(text.encode("utf-8"))`, where `none` is the `UnicodeEncodeError`.
unfoldable pub utf8_length : Text → Option ℕ
utf8_length [] = some 0
utf8_length (c ∷ cs) = add_width (utf8_width c) (utf8_length cs)

-- What the code takes from Python's Unicode tables.
pub record UnicodeData : Type 0 where
  pub nfc : Text → Text
  pub casefold : Text → Text
  pub strip : Text → Text

-- A text that splits into one piece.
split-plain : (c : ℕ) (p : Text) → elem c p ≡ false → split c p ≡ p ∷ []
unfolding split
split-plain c [] h = refl
split-plain c (x ∷ xs) h = ground (arith, split-plain c xs)

split-append :
    (c : ℕ) (p rest : Text) → elem c p ≡ false → split c (p ++ c ∷ rest) ≡ p ∷ split c rest
unfolding split
split-append c [] rest h = ground arith
split-append c (x ∷ xs) rest h = ground (arith, split-append c xs rest)

-- Pieces that do not hold the separator are what their join splits into.
pub split-join :
    (c : ℕ) (p : Text) (ps : List Text)
    → All (λ q. elem c q ≡ false) (p ∷ ps)
    → split c (join c (p ∷ ps)) ≡ p ∷ ps
unfolding join
split-join c p [] h = split-plain c p h.0
split-join c p (q ∷ ps) h =
    ground (arith, split-append c p (join c (q ∷ ps)) h.0, split-join c q ps h.1)

-- The pieces of a split hold no separator, and nothing that the text does not hold.
All-extend :
    (c x : ℕ) (ps : List Text)
    → (c == x) ≡ false
    → All (λ q. elem c q ≡ false) ps
    → All (λ q. elem c q ≡ false) (extend x ps)
All-extend c x [] h a = ground arith
All-extend c x (p ∷ ps) h a = ground arith

pub split-All : (c : ℕ) (t : Text) → All (λ q. elem c q ≡ false) (split c t)
unfolding split
split-All c [] = (refl, tt)
split-All c (x ∷ xs) = ground (arith, split-All c xs, All-extend c x (split c xs))
