-- ===== src/Provenance/Meaning.antt =====
-- The data that a lineage stands for, and that composition keeps it. The operations of the table
-- engine are a parameter: what a source holds is one too, and so is the data of each live reference.
use ldaca_wordflow_backend.Base.{
  ℕ, ◌≡◌, refl, ap, false, List, [], ◌∷◌, ◌==◌, if◌then◌else◌, Bool-cases, inl, inr, ok,
}
use ldaca_wordflow_backend.Derivation.{DerivationOperation}
use ldaca_wordflow_backend.Provenance.{
  Provenance, source, node, derivation, Inputs, end, input, Role, replace_value, replace_inputs,
  compose_provenance, is_reference,
}
use ldaca_wordflow_backend.Provenance.Composition.{compose_provenance-ok}

-- What the engine makes of an operation and its ordered inputs.
pub record Engine (V : Type 0) : Type 0 where
  pub snapshot : V
  pub apply : DerivationOperation → List (Role × V) → V

module _ {V : Type 0} (engine : Engine V) where
  unfoldable mutual
    pub value_of : (ℕ → V) → Provenance → V
    value_of env source = engine.snapshot
    value_of env (node n) = env n
    value_of env (derivation operation inputs) = engine.apply operation (values_of env inputs)

    pub values_of : (ℕ → V) → Inputs → List (Role × V)
    values_of env end = []
    values_of env (input role value inputs) = (role, value_of env value) ∷ values_of env inputs

-- The data of the references, with another value for one of them.
abbrev pub assign {ℓ} : {V : Type ℓ} → ℕ → V → (ℕ → V) → ℕ → V
assign t v env n = if n == t then v else env n

module _ {V : Type 0} (engine : Engine V) (env : ℕ → V) (t : ℕ) (r : Provenance) where
  mutual
    unfolding value_of replace_value

    pub value_of-replace_value :
        (p : Provenance)
        → value_of engine env (replace_value t r p)
          ≡ value_of engine (assign t (value_of engine env r) env) p
    value_of-replace_value source = refl
    value_of-replace_value (node n) = elim (Bool-cases (n == t)) [
      | inl same ↦ rw same refl
      | inr other ↦ rw other refl
    ]
    value_of-replace_value (derivation operation inputs) =
        ap (engine.apply operation) (values_of-replace_inputs inputs)

    pub values_of-replace_inputs :
        (inputs : Inputs)
        → values_of engine env (replace_inputs t r inputs)
          ≡ values_of engine (assign t (value_of engine env r) env) inputs
    values_of-replace_inputs end = refl
    values_of-replace_inputs (input role value inputs) =
        rw (value_of-replace_value value, values_of-replace_inputs inputs) refl

-- With any engine and any data for the live references, the composed lineage stands for what the
-- first lineage stands for when the removed Data Block holds what its own lineage stands for.
pub value_of-compose_provenance :
    {V : Type 0} (engine : Engine V) (env : ℕ → V) (p : Provenance) (t : ℕ) (r : Provenance)
    → is_reference p ≡ false
    → (q : Provenance) × (compose_provenance p t r ≡ ok q)
      × (value_of engine env q ≡ value_of engine (assign t (value_of engine env r) env) p)
value_of-compose_provenance engine env p t r e =
    (replace_value t r p, compose_provenance-ok p t r e, value_of-replace_value engine env t r p)
