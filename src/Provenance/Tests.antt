-- ===== src/Provenance/Tests.antt =====
-- provenance.py at concrete inputs.
use ldaca_wordflow_backend.Base.{
  ℕ, ◌≡◌, refl, true, false, Option, none, List, [], ◌∷◌, ◌++◌, ◌+◌, ok,
}
use ldaca_wordflow_backend.Text.{Text, codes}
use ldaca_wordflow_backend.Derivation.{clone, concat, join, cross, is_valid_operation}
use ldaca_wordflow_backend.Provenance.{
  Provenance, node, derivation, end, input, Role, source_role, member, left, right,
  is_valid_provenance, referenced_node_ids, visit, compose_provenance,
}
use ldaca_wordflow_backend.Provenance.Composition.{IsComposed, compose_provenance-IsComposed}
use ldaca_wordflow_backend.Provenance.Meaning.{
  Engine, value_of, assign, value_of-compose_provenance,
}
use ldaca_wordflow_backend.Provenance.Description.{describe_provenance, describe_operation}

abbrev cloned : ℕ → Provenance
cloned id = derivation clone (input source_role (node id) end)

abbrev product : Provenance
product = derivation (join none none cross) (input left (node 7) (input right (cloned 8) end))

references :
    referenced_node_ids
      (derivation (concat true) (input member product (input member (node 7) end)))
    ≡ 7 ∷ 8 ∷ []
unfolding referenced_node_ids visit
references = refl

-- A concatenation of one member is refused.
one_member : is_valid_provenance (derivation (concat true) (input member product end)) ≡ false
unfolding is_valid_provenance is_valid_operation
one_member = refl

compose_provenance-IsComposed_example :
    (q : Provenance) × (compose_provenance product 7 (cloned 9) ≡ ok q)
    × IsComposed product 7 (cloned 9) q
unfolding is_valid_provenance is_valid_operation
compose_provenance-IsComposed_example =
    compose_provenance-IsComposed product 7 (cloned 9) refl refl refl

-- Rows are counted: a snapshot has ten, and any operation adds up its inputs.
abbrev sizes : List (Role × ℕ) → ℕ
sizes [] = 0
sizes (v ∷ vs) = v.1 + sizes vs

abbrev row_counts : Engine ℕ
row_counts = record { snapshot = 10; apply = λ operation inputs. sizes inputs }

value_of-compose_provenance_example :
    (q : Provenance) × (compose_provenance product 7 (cloned 9) ≡ ok q)
    × (value_of row_counts (λ n. n) q
        ≡ value_of row_counts (assign 7 (value_of row_counts (λ n. n) (cloned 9)) (λ n. n)) product)
value_of-compose_provenance_example =
    value_of-compose_provenance row_counts (λ n. n) product 7 (cloned 9) refl

abbrev id_text : ℕ → Text
id_text n = n ∷ []

abbrev no_names : ℕ → Option Text
no_names n = none

described :
    describe_provenance id_text no_names product
    ≡ codes "cross join of " ++ 7 ∷ (codes " and clone of " ++ 8 ∷ [])
unfolding describe_provenance describe_operation
described = refl
