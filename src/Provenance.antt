-- ===== src/Provenance.antt =====
-- src/ldaca_wordflow/domain/workspace/provenance.py: the lineage of a Data Block, with its live
-- references, and the replacement of a removed Data Block by its own lineage. An operation is what
-- Derivation models. A Data Block's id is a number.
pub mod References
pub mod Composition
pub mod Meaning
pub mod Description
mod Tests
use ldaca_wordflow_backend.Base.{
  ℕ, suc, Bool, true, false, not, ◌&&◌, ◌||◌, List, [], ◌∷◌, ◌++◌, elem, leb, ◌==◌, if◌then◌else◌,
  Result, ok, err,
}
use ldaca_wordflow_backend.Derivation
use ldaca_wordflow_backend.Derivation.{DerivationOperation, is_valid_operation}

pub data Role : Type 0 where
  source_role left right member input_role : Role

-- `SourceProvenance | NodeReference | DerivationProvenance`, with the ordered `DerivationInput`s.
mutual
  pub data Provenance : Type 0 where
    source : Provenance
    node : (node_id : ℕ) → Provenance
    derivation : DerivationOperation → Inputs → Provenance

  pub data Inputs : Type 0 where
    end : Inputs
    input : Role → Provenance → Inputs → Inputs

abbrev pub roles : Inputs → List Role
roles end = []
roles (input role value inputs) = role ∷ roles inputs

abbrev pub is_left_right : List Role → Bool
is_left_right (left ∷ right ∷ []) = true
is_left_right _ = false

-- Two or more members.
abbrev pub are_members : List Role → Bool
are_members [] = true
are_members (member ∷ rest) = are_members rest
are_members (_ ∷ rest) = false

abbrev pub are_two_members : List Role → Bool
are_two_members (member ∷ member ∷ rest) = are_members rest
are_two_members _ = false

abbrev pub are_inputs : List Role → Bool
are_inputs [] = true
are_inputs (input_role ∷ rest) = are_inputs rest
are_inputs (_ ∷ rest) = false

abbrev pub are_some_inputs : List Role → Bool
are_some_inputs [] = false
are_some_inputs (role ∷ rest) = are_inputs (role ∷ rest)

abbrev pub is_one_source : List Role → Bool
is_one_source (source_role ∷ []) = true
is_one_source _ = false

-- `validate_input_roles`
abbrev pub has_roles : DerivationOperation → List Role → Bool
has_roles (Derivation.join l r how) rs = is_left_right rs
has_roles (Derivation.concat d) rs = are_two_members rs
has_roles (Derivation.sql q) rs = are_some_inputs rs
has_roles _ rs = is_one_source rs

-- All that the validation of a value checks.
unfoldable mutual
  pub is_valid_provenance : Provenance → Bool
  is_valid_provenance source = true
  is_valid_provenance (node node_id) = true
  is_valid_provenance (derivation operation inputs) =
      is_valid_operation operation && has_roles operation (roles inputs) && are_valid_inputs inputs

  pub are_valid_inputs : Inputs → Bool
  are_valid_inputs end = true
  are_valid_inputs (input role value inputs) = is_valid_provenance value && are_valid_inputs inputs

-- A `NodeProvenance` is no reference at its top.
abbrev pub is_reference : Provenance → Bool
is_reference (node node_id) = true
is_reference _ = false

-- `visit`: `seen` and `ordered` hold the same ids, here in their order of first use.
unfoldable mutual
  pub visit : Provenance → List ℕ → List ℕ
  visit source ordered = ordered
  visit (node node_id) ordered = if elem node_id ordered then ordered else ordered ++ node_id ∷ []
  visit (derivation operation inputs) ordered = visit_inputs inputs ordered

  pub visit_inputs : Inputs → List ℕ → List ℕ
  visit_inputs end ordered = ordered
  visit_inputs (input role value inputs) ordered = visit_inputs inputs (visit value ordered)

unfoldable pub referenced_node_ids : Provenance → List ℕ
referenced_node_ids provenance = visit provenance []

unfoldable mutual
  pub replace_value : ℕ → Provenance → Provenance → Provenance
  replace_value target replacement source = source
  replace_value target replacement (node node_id) =
      if node_id == target then replacement else node node_id
  replace_value target replacement (derivation operation inputs) =
      derivation operation (replace_inputs target replacement inputs)

  pub replace_inputs : ℕ → Provenance → Inputs → Inputs
  replace_inputs target replacement end = end
  replace_inputs target replacement (input role value inputs) =
      input role (replace_value target replacement value) (replace_inputs target replacement inputs)

pub data ProvenanceError : Type 0 where
  reference_at_top : ProvenanceError

unfoldable pub compose_provenance : Provenance → ℕ → Provenance → Result ProvenanceError Provenance
compose_provenance provenance removed_node_id replacement =
    let composed = replace_value removed_node_id replacement provenance in
    if is_reference composed then err reference_at_top else ok composed
