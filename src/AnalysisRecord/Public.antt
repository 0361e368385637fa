-- ===== src/AnalysisRecord/Public.antt =====
-- The public form of an Analysis, `public_analysis` of analysis.py.
use ldaca_wordflow_backend.Base.{ℕ, ◌≡◌, ap, ◌↔◌, true, not, Option, arith, ok, ◌>>◌, raise_if}
use ldaca_wordflow_backend.Text.{Text}
use ldaca_wordflow_backend.Background.{
  BackgroundState, queued, running, succeeded, failed, cancelled, Progress, is_complete,
  is_succeeded, is_valid_progress,
}
use ldaca_wordflow_backend.AnalysisRecord.Checks.{
  AnalysisRecord, Lifecycle, check_fields, validate_lifecycle, repeated_inputs,
}
use ldaca_wordflow_backend.AnalysisRecord.{
  Analysis, Integrity, is_valid_integrity, progress_or, public_analysis,
}
use ldaca_wordflow_backend.AnalysisRecord.Validation.{
  IsConsistent, check_fields_iff, validate_lifecycle_iff, HasValidFields, Shape, IsOrdered,
}

-- Another progress fits the state exactly if it is complete for a success and for nothing else.
progress-Shape :
    (s : BackgroundState) (r : Lifecycle) (q : Progress)
    → Shape s r
    → Shape s (record r { progress = q }) ↔ (is_complete q ≡ is_succeeded s)
progress-Shape queued r q h = ground arith
progress-Shape running r q h = ground arith
progress-Shape succeeded r q h = ground arith
progress-Shape failed r q h = ground arith
progress-Shape cancelled r q h = ground arith

module _ (casefold : Text → Text) (id_text : ℕ → Text) where
  public_checks_iff :
      (fields : Lifecycle) (integrity : Integrity) (p : Analysis)
      → (do
        check_fields casefold fields
        raise_if (not (is_valid_integrity integrity)) repeated_inputs
        validate_lifecycle fields
        ok (record { fields = fields; integrity = integrity }))
          ≡ ok p
        ↔ ((check_fields casefold fields ≡ ok tt)
            × (is_valid_integrity integrity ≡ true)
            × (validate_lifecycle fields ≡ ok tt)
            × (p ≡ record { fields = fields; integrity = integrity }))
  public_checks_iff fields integrity p = ground arith

  -- A consistent record with a valid integrity and a valid progress has a public form exactly if that
  -- progress is complete for a success and for nothing else; the form is the record's lifecycle with
  -- that progress.
  pub public_analysis_iff :
      (a : AnalysisRecord) (integrity : Integrity) (progress : Option Progress) (p : Analysis)
      → IsConsistent casefold id_text a
      → is_valid_integrity integrity ≡ true
      → is_valid_progress (progress_or progress a.lifecycle.progress) ≡ true
      → (public_analysis casefold a integrity progress ≡ ok p) ↔ (
          (is_complete (progress_or progress a.lifecycle.progress) ≡ is_succeeded a.lifecycle.state)
          × (p.fields ≡ record a.lifecycle { progress = progress_or progress a.lifecycle.progress })
          × (p.integrity ≡ integrity))
  unfolding public_analysis
  public_analysis_iff a integrity progress p v i h =
      let q : Progress = progress_or progress a.lifecycle.progress in
      let fields : Lifecycle = record a.lifecycle { progress = q } in
      let checks = public_checks_iff fields integrity p in
      let lifecycle = validate_lifecycle_iff fields in
      let shape = progress-Shape a.lifecycle.state a.lifecycle q v.shape in
      let valid_fields : HasValidFields casefold fields = record {
        request_valid = v.fields.request_valid;
        progress_valid = h;
        error_valid = v.fields.error_valid;
        revised = v.fields.revised;
      } in
      let ordered : IsOrdered fields = ground (arith, v.ordered) in
      (
        (λ e.
            let (f, j, l, same) = checks.0 e in
            (shape.0 (lifecycle.0 l).0, ap (λ x. x.fields) same, ap (λ x. x.integrity) same)),
        λ e. checks.1 (
          (check_fields_iff casefold fields).1 valid_fields,
          i,
          lifecycle.1 (shape.1 e.0, ordered),
          ground (arith, e.1, e.2),
        ),
      )
