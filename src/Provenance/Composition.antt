-- ===== src/Provenance/Composition.antt =====
-- What `compose_provenance` gives: a valid lineage with the references of both parts.
use ldaca_wordflow_backend.Base.{
  ℕ, ◌≡◌, refl, ap, true, false, not, ◌&&◌, ◌||◌, ◌∷◌, arith, ◌==◌, elem, ok,
}
use ldaca_wordflow_backend.Provenance.{
  Provenance, source, node, derivation, Inputs, end, input, roles, has_roles, is_valid_provenance,
  are_valid_inputs, is_reference, referenced_node_ids, replace_value, replace_inputs,
  compose_provenance,
}
use ldaca_wordflow_backend.Provenance.References.{mentions-replace_value, elem-referenced_node_ids}

roles-replace_inputs :
    (t : ℕ) (r : Provenance) (inputs : Inputs) → roles (replace_inputs t r inputs) ≡ roles inputs
unfolding replace_value
roles-replace_inputs t r end = refl
roles-replace_inputs t r (input role value inputs) =
    ap (λ rs. role ∷ rs) (roles-replace_inputs t r inputs)

mutual
  unfolding is_valid_provenance replace_value

  is_valid-replace_value :
      (t : ℕ) (r p : Provenance)
      → is_valid_provenance r ≡ true
      → is_valid_provenance p ≡ true
      → is_valid_provenance (replace_value t r p) ≡ true
  is_valid-replace_value t r source v w = refl
  is_valid-replace_value t r (node n) v w = ground arith
  is_valid-replace_value t r (derivation operation inputs) v w = ground (
    arith,
    ap (has_roles operation) (roles-replace_inputs t r inputs),
    are_valid-replace_inputs t r inputs v,
  )

  are_valid-replace_inputs :
      (t : ℕ) (r : Provenance) (inputs : Inputs)
      → is_valid_provenance r ≡ true
      → are_valid_inputs inputs ≡ true
      → are_valid_inputs (replace_inputs t r inputs) ≡ true
  are_valid-replace_inputs t r end v w = refl
  are_valid-replace_inputs t r (input role value inputs) v w =
      ground (arith, is_valid-replace_value t r value v, are_valid-replace_inputs t r inputs v)

-- A lineage that is no reference keeps its shape.
pub is_reference-replace_value :
    (t : ℕ) (r p : Provenance) → is_reference p ≡ false → is_reference (replace_value t r p) ≡ false
unfolding replace_value
is_reference-replace_value t r source e = refl
is_reference-replace_value t r (node n) e = absurd (ground arith)
is_reference-replace_value t r (derivation operation inputs) e = refl

pub compose_provenance-ok :
    (p : Provenance) (t : ℕ) (r : Provenance)
    → is_reference p ≡ false
    → compose_provenance p t r ≡ ok (replace_value t r p)
unfolding compose_provenance
compose_provenance-ok p t r e = rw (is_reference-replace_value t r p e) refl

-- What the composition of two valid lineages is.
pub record IsComposed (p : Provenance) (t : ℕ) (r q : Provenance) : Type 0 where
  pub valid : is_valid_provenance q ≡ true
  pub no_reference : is_reference q ≡ false
  pub references :
      (x : ℕ)
      → elem x (referenced_node_ids q) ≡ (
          (not (x == t) && elem x (referenced_node_ids p))
          || (elem t (referenced_node_ids p) && elem x (referenced_node_ids r)))

-- For valid lineages of which the first is no bare reference, composition succeeds; the result is
-- valid again, with the same rules on the roles of inputs, and refers to exactly what the first refers
-- to beside the removed Data Block and, if it referred to that, to what the replacement refers to.
pub compose_provenance-IsComposed :
    (p : Provenance) (t : ℕ) (r : Provenance)
    → is_valid_provenance p ≡ true
    → is_reference p ≡ false
    → is_valid_provenance r ≡ true
    → (q : Provenance) × (compose_provenance p t r ≡ ok q) × IsComposed p t r q
compose_provenance-IsComposed p t r v e w = (
  replace_value t r p,
  compose_provenance-ok p t r e,
  record {
    valid = is_valid-replace_value t r p w v;
    no_reference = is_reference-replace_value t r p e;
    references = λ x. ground (
      arith,
      elem-referenced_node_ids x (replace_value t r p),
      elem-referenced_node_ids x p,
      elem-referenced_node_ids t p,
      elem-referenced_node_ids x r,
      mentions-replace_value x t r p,
    );
  },
)
