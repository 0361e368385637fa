-- ===== src/Provenance/References.antt =====
-- The live references of a lineage in provenance.py, against an independent search for one id.
use ldaca_wordflow_backend.Base.{
  ℕ, ◌≡◌, refl, ap, Bool, false, not, ◌&&◌, ◌||◌, List, [], ◌∷◌, arith, ◌==◌, elem, elem-append,
  IsDistinct, IsDistinct-snoc,
}
use ldaca_wordflow_backend.Provenance.{
  Provenance, source, node, derivation, Inputs, end, input, visit, visit_inputs,
  referenced_node_ids, replace_value, replace_inputs,
}

-- Whether an id occurs anywhere in a lineage.
unfoldable mutual
  pub mentions : ℕ → Provenance → Bool
  mentions x source = false
  mentions x (node n) = x == n
  mentions x (derivation operation inputs) = mentions_inputs x inputs

  pub mentions_inputs : ℕ → Inputs → Bool
  mentions_inputs x end = false
  mentions_inputs x (input role value inputs) = mentions x value || mentions_inputs x inputs

mutual
  unfolding visit mentions

  elem-visit_from :
      (x : ℕ) (p : Provenance) (ordered : List ℕ)
      → elem x (visit p ordered) ≡ (elem x ordered || mentions x p)
  elem-visit_from x source ordered = ground arith
  elem-visit_from x (node n) ordered = ground (arith, elem-append x ordered (n ∷ []))
  elem-visit_from x (derivation operation inputs) ordered = elem-visit_inputs x inputs ordered

  elem-visit_inputs :
      (x : ℕ) (inputs : Inputs) (ordered : List ℕ)
      → elem x (visit_inputs inputs ordered) ≡ (elem x ordered || mentions_inputs x inputs)
  elem-visit_inputs x end ordered = ground arith
  elem-visit_inputs x (input role value inputs) ordered =
      ground
        (arith, elem-visit_from x value ordered, elem-visit_inputs x inputs (visit value ordered))

mutual
  unfolding visit

  visit-IsDistinct :
      (p : Provenance) (ordered : List ℕ) → IsDistinct ordered → IsDistinct (visit p ordered)
  visit-IsDistinct source ordered d = d
  visit-IsDistinct (node n) ordered d = ground (arith, IsDistinct-snoc n ordered d)
  visit-IsDistinct (derivation operation inputs) ordered d =
      visit_inputs-IsDistinct inputs ordered d

  visit_inputs-IsDistinct :
      (inputs : Inputs) (ordered : List ℕ)
      → IsDistinct ordered
      → IsDistinct (visit_inputs inputs ordered)
  visit_inputs-IsDistinct end ordered d = d
  visit_inputs-IsDistinct (input role value inputs) ordered d =
      visit_inputs-IsDistinct inputs (visit value ordered) (visit-IsDistinct value ordered d)

pub elem-referenced_node_ids :
    (x : ℕ) (p : Provenance) → elem x (referenced_node_ids p) ≡ mentions x p
unfolding referenced_node_ids
elem-referenced_node_ids x p = elem-visit_from x p []

pub referenced_node_ids-IsDistinct : (p : Provenance) → IsDistinct (referenced_node_ids p)
unfolding referenced_node_ids
referenced_node_ids-IsDistinct p = visit-IsDistinct p [] tt

mutual
  unfolding replace_value mentions

  pub mentions-replace_value :
      (x t : ℕ) (r p : Provenance)
      → mentions x (replace_value t r p)
        ≡ ((not (x == t) && mentions x p) || (mentions t p && mentions x r))
  mentions-replace_value x t r source = ground arith
  mentions-replace_value x t r (node n) = ground arith
  mentions-replace_value x t r (derivation operation inputs) = mentions-replace_inputs x t r inputs

  pub mentions-replace_inputs :
      (x t : ℕ) (r : Provenance) (inputs : Inputs)
      → mentions_inputs x (replace_inputs t r inputs)
        ≡ ((not (x == t) && mentions_inputs x inputs) || (mentions_inputs t inputs && mentions x r))
  mentions-replace_inputs x t r end = ground arith
  mentions-replace_inputs x t r (input role value inputs) =
      ground (arith, mentions-replace_value x t r value, mentions-replace_inputs x t r inputs)

mutual
  unfolding replace_value mentions

  pub fresh-replace_value :
      (t : ℕ) (r p : Provenance) → mentions t p ≡ false → replace_value t r p ≡ p
  fresh-replace_value t r source e = refl
  fresh-replace_value t r (node n) e = ground arith
  fresh-replace_value t r (derivation operation inputs) e =
      ap (derivation operation) (fresh-replace_inputs t r inputs e)

  pub fresh-replace_inputs :
      (t : ℕ) (r : Provenance) (inputs : Inputs)
      → mentions_inputs t inputs ≡ false
      → replace_inputs t r inputs ≡ inputs
  fresh-replace_inputs t r end e = refl
  fresh-replace_inputs t r (input role value inputs) e =
      ground (arith, fresh-replace_value t r value, fresh-replace_inputs t r inputs)
