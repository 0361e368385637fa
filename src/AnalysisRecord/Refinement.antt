-- ===== src/AnalysisRecord/Refinement.antt =====
-- The record of analysis.py goes through the phases that an Analysis promises.
use ldaca_wordflow_backend.Base.{
  ℕ, ◌+◌, ◌≡◌, refl, ◌∙◌, inl, inr, sym, ap, subst, arith, Bool, false, not, ◌&&◌, Option, some,
  List, [], ◌∷◌, is_some, Bool-cases, Result, ok, err, ◌>>◌, raise_if, raise_if->>,
}
use ldaca_wordflow_backend.Text.{Text}
use ldaca_wordflow_backend.Background.{is_queued, is_running}
use ldaca_wordflow_backend.AnalysisRequest.{AnalysisRequest}
use ldaca_wordflow_backend.AnalysisRecord.Checks.{
  AnalysisRecord, ExecutionScope, AnalysisError, not_running,
}
use ldaca_wordflow_backend.AnalysisRecord.{
  transition, start, cancel_queued, request_running_cancellation, confirm_cancelled, fail, succeed,
  create,
}
use ldaca_wordflow_backend.AnalysisRecord.Validation.{IsConsistent, validate_iff}
use ldaca_wordflow_backend.AnalysisRecord.Phases.{
  Op, starts, cancels_queued, requests_cancellation, confirms_cancelled, fails, succeeds, apply,
  or_kept, run, waiting, next, follow, happened, recorded, event_for, phase_of,
}

-- The fields that no call changes.
abbrev pub SameAnalysis : AnalysisRecord → AnalysisRecord → Type 0
SameAnalysis a b =
    (b.lifecycle.id ≡ a.lifecycle.id)
    × (b.lifecycle.tab_id ≡ a.lifecycle.tab_id)
    × (b.lifecycle.parent_analysis_id ≡ a.lifecycle.parent_analysis_id)
    × (b.lifecycle.supersedes_analysis_ids ≡ a.lifecycle.supersedes_analysis_ids)
    × (b.lifecycle.request ≡ a.lifecycle.request)
    × (b.lifecycle.created_at ≡ a.lifecycle.created_at)

-- Nobody has asked a queued Analysis to stop.
abbrev pub IsUnasked : AnalysisRecord → Type 0
IsUnasked a = (is_queued a.lifecycle.state && is_some a.lifecycle.cancellation_requested_at) ≡ false

abbrev pub raised : AnalysisRecord → AnalysisRecord
raised a = record a { lifecycle = record a.lifecycle { revision = a.lifecycle.revision + 1 } }

module _ (casefold : Text → Text) (id_text : ℕ → Text) where
  -- A successful call of a method, seen as an event.
  pub record IsEvent (a : AnalysisRecord) (op : Op) (b : AnalysisRecord) : Type 0 where
    pub consistent : IsConsistent casefold id_text b
    pub unasked : IsUnasked b
    pub happened : next (event_for op) (phase_of a) ≡ some (phase_of b)
    pub same : SameAnalysis a b

  guarded-IsConsistent :
      (guard : Bool) (error : AnalysisError) (s b : AnalysisRecord)
      → (raise_if guard error >> transition casefold id_text s) ≡ ok b
      → (guard ≡ false) × (b ≡ raised s) × IsConsistent casefold id_text b
  unfolding transition
  guarded-IsConsistent guard error s b e =
      let (g, k) = (raise_if->> guard error (transition casefold id_text s) {w = b}).0 e in
      let (same, c) = (validate_iff casefold id_text (raised s) b).0 k in
      (g, same, subst (IsConsistent casefold id_text) (sym same) c)

  -- What remains of a guarded transition is to compare the phases.
  guarded-IsEvent :
      (guard : Bool) (error : AnalysisError) (a s b : AnalysisRecord) (op : Op)
      → (raise_if guard error >> transition casefold id_text s) ≡ ok b
      → SameAnalysis a s
      → (guard ≡ false → IsUnasked s × (next (event_for op) (phase_of a) ≡ some (phase_of s)))
      → IsEvent a op b
  guarded-IsEvent guard error a s b op e same step =
      let (g, eq, c) = guarded-IsConsistent guard error s b e in
      let (u, h) = step g in
      record { consistent = c; unasked = rw eq u; happened = rw eq h; same = rw eq same }

  -- A second request returns the record as it is.
  asks-IsEvent :
      (a b : AnalysisRecord) (t : ℕ)
      → IsConsistent casefold id_text a
      → IsUnasked a
      → request_running_cancellation casefold id_text t a ≡ ok b
      → IsEvent a (requests_cancellation t) b
  unfolding request_running_cancellation
  asks-IsEvent a b t v u = elim (Bool-cases (is_some a.lifecycle.cancellation_requested_at)) [
    | inl again ↦
        let raise = raise_if->> (not (is_running a.lifecycle.state)) not_running (ok a) {w = b} in
        simp again (λ e.
          let (g, k) = raise.0 e in
          let same : b ≡ a = ground arith in
          record {
            consistent = subst (IsConsistent casefold id_text) (sym same) v;
            unasked = rw same u;
            happened = rw same (ground arith);
            same = rw same (refl, refl, refl, refl, refl, refl);
          })
    | inr fresh ↦ simp fresh (λ e.
        guarded-IsEvent _ _ a _ b (requests_cancellation t) e (refl, refl, refl, refl, refl, refl)
          (λ g. ground arith))
  ]

  apply-IsEvent :
      (a b : AnalysisRecord) (op : Op)
      → IsConsistent casefold id_text a
      → IsUnasked a
      → apply casefold id_text op a ≡ ok b
      → IsEvent a op b
  unfolding apply start cancel_queued request_running_cancellation confirm_cancelled fail succeed
  apply-IsEvent a b (starts t) v u e =
      guarded-IsEvent _ _ a _ b (starts t) e (refl, refl, refl, refl, refl, refl)
        (λ g. ground arith)
  apply-IsEvent a b (cancels_queued t) v u e =
      guarded-IsEvent _ _ a _ b (cancels_queued t) e (refl, refl, refl, refl, refl, refl)
        (λ g. ground arith)
  apply-IsEvent a b (requests_cancellation t) v u e = asks-IsEvent a b t v u e
  apply-IsEvent a b (confirms_cancelled t p) v u e =
      guarded-IsEvent _ _ a _ b (confirms_cancelled t p) e (refl, refl, refl, refl, refl, refl)
        (λ g. ground arith)
  apply-IsEvent a b (fails t f p) v u e =
      guarded-IsEvent _ _ a _ b (fails t f p) e (refl, refl, refl, refl, refl, refl)
        (λ g. ground arith)
  apply-IsEvent a b (succeeds t x artifacts outputs snapshot) v u e =
      guarded-IsEvent _ _ a _ b (succeeds t x artifacts outputs snapshot) e
        (refl, refl, refl, refl, refl, refl) (λ g. ground arith)

  -- What holds of a record between two calls, and what becomes of it in the remaining ones.
  pub record IsReached (ops : List Op) (a b : AnalysisRecord) : Type 0 where
    pub consistent : IsConsistent casefold id_text b
    pub same : SameAnalysis a b
    pub followed : follow (happened casefold id_text ops a) (some (phase_of a)) ≡ some (phase_of b)

  after-IsReached :
      (op : Op) (ops : List Op) (a : AnalysisRecord) (result : Result AnalysisError AnalysisRecord)
      → ((b : AnalysisRecord)
          → IsConsistent casefold id_text b
          → IsUnasked b
          → IsReached ops b (run casefold id_text ops b))
      → IsConsistent casefold id_text a
      → IsUnasked a
      → apply casefold id_text op a ≡ result
      → IsConsistent casefold id_text (run casefold id_text ops (or_kept casefold id_text a result))
        × SameAnalysis a (run casefold id_text ops (or_kept casefold id_text a result))
        × (follow (recorded (happened casefold id_text ops) op a result) (some (phase_of a))
            ≡ some (phase_of (run casefold id_text ops (or_kept casefold id_text a result))))
  after-IsReached op ops a (err e) later v u q =
      let h = later a v u in (h.consistent, h.same, h.followed)
  after-IsReached op ops a (ok b) later v u q =
      let step = apply-IsEvent a b op v u q in
      let h = later b step.consistent step.unasked in
      (
        h.consistent,
        ground (arith, step.same, h.same),
        ap (follow (happened casefold id_text ops b)) step.happened ∙ h.followed,
      )

  run-IsReached :
      (ops : List Op) (a : AnalysisRecord)
      → IsConsistent casefold id_text a
      → IsUnasked a
      → IsReached ops a (run casefold id_text ops a)
  unfolding run happened
  run-IsReached [] a v u = record {
    consistent = v;
    same = (refl, refl, refl, refl, refl, refl);
    followed = refl;
  }
  run-IsReached (op ∷ ops) a v u =
      let h = after-IsReached op ops a (apply casefold id_text op a) (run-IsReached ops) v u refl in
      record { consistent = h.0; same = h.1; followed = h.2 }

  -- Whatever methods are called on a new Analysis, and whichever of them raise: its record stays
  -- consistent, keeps its identity, request and creation time, and the events of the calls that did
  -- not raise, in their order, are ones that the phases allow and lead from waiting to its phase.
  pub run-follow :
      (request : AnalysisRequest) (tab_id : ℕ) (scope : ExecutionScope) (timestamp : ℕ)
      (parent : Option ℕ) (superseded : List ℕ) (id : ℕ) (ops : List Op) {a : AnalysisRecord}
      → create casefold id_text request tab_id scope timestamp parent superseded id ≡ ok a
      → IsConsistent casefold id_text (run casefold id_text ops a)
        × SameAnalysis a (run casefold id_text ops a)
        × (follow (happened casefold id_text ops a) (some waiting)
            ≡ some (phase_of (run casefold id_text ops a)))
  unfolding create
  run-follow request tab_id scope timestamp parent superseded id ops {a} e =
      let (same, c) = (validate_iff casefold id_text _ a).0 e in
      let start : phase_of a ≡ waiting = rw same refl in
      let h =
        run-IsReached ops a (subst (IsConsistent casefold id_text) (sym same) c) (rw same refl) in
      (
        h.consistent,
        h.same,
        subst
            (λ p.
              follow (happened casefold id_text ops a) (some p)
              ≡ some (phase_of (run casefold id_text ops a)))
            start h.followed,
      )
