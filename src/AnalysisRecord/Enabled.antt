-- ===== src/AnalysisRecord/Enabled.antt =====
-- The methods of analysis.py's record can do whatever the phases of an Analysis allow.
use ldaca_wordflow_backend.Base.{
  ℕ, ◌≡◌, refl, arith, Bool, true, false, not, none, some, [], is_some, Bool-cases, inl, inr, ok,
  ◌>>◌, raise_if, raise_if->>, ==_refl,
}
use ldaca_wordflow_backend.Text.{Text, codes}
use ldaca_wordflow_backend.Background.{
  running, succeeded, failed, cancelled, is_running, complete, complete-ne-zero, Progress, Failure,
  start_or_creation, is_valid_progress, is_valid_failure, is_safe_public_text,
}
use ldaca_wordflow_backend.AnalysisRecord.Checks.{AnalysisRecord, AnalysisError}
use ldaca_wordflow_backend.AnalysisRecord.{
  transition, start, cancel_queued, request_running_cancellation, confirm_cancelled, fail, succeed,
}
use ldaca_wordflow_backend.AnalysisRecord.Validation.{IsConsistent, validate_iff}
use ldaca_wordflow_backend.AnalysisRecord.Phases.{
  Op, starts, cancels_queued, requests_cancellation, confirms_cancelled, fails, succeeds, apply,
  Phase, Event, begins, withdraws, asks, confirms, breaks, completes, next, phase_of,
}
use ldaca_wordflow_backend.AnalysisRecord.Refinement.{raised, IsUnasked}

abbrev pub no_progress : Progress
no_progress = record { fraction = some 0; message = none }

abbrev pub plain_failure : Failure
plain_failure = record { code = codes "failed"; message = codes "Failed" }

abbrev pub full_progress : Progress
full_progress = record { fraction = some complete; message = some (codes "Complete") }

plain_failure_valid : is_valid_failure plain_failure ≡ true
unfolding is_valid_failure is_safe_public_text
plain_failure_valid = refl

full_progress_valid : is_valid_progress full_progress ≡ true
unfolding is_valid_progress complete
full_progress_valid = refl

no_progress_valid : is_valid_progress no_progress ≡ true
unfolding is_valid_progress complete
no_progress_valid = refl

-- The earliest time at which any call is in order.
abbrev earliest : AnalysisRecord → ℕ
earliest a = start_or_creation a.lifecycle.started_at a.lifecycle.created_at

-- A call for an event, at that time.
abbrev pub call_for : Event → AnalysisRecord → Op
call_for begins a = starts (earliest a)
call_for withdraws a = cancels_queued (earliest a)
call_for asks a = requests_cancellation (earliest a)
call_for confirms a = confirms_cancelled (earliest a) no_progress
call_for breaks a = fails (earliest a) plain_failure no_progress
call_for completes a = succeeds (earliest a) 0 [] [] none

module _ (casefold : Text → Text) (id_text : ℕ → Text) where
  guarded_ok :
      (guard : Bool) (error : AnalysisError) (s : AnalysisRecord)
      → guard ≡ false
      → IsConsistent casefold id_text (raised s)
      → (raise_if guard error >> transition casefold id_text s) ≡ ok (raised s)
  unfolding transition
  guarded_ok guard error s g c =
      (raise_if->> guard error (transition casefold id_text s) {w = raised s}).1
        (g, (validate_iff casefold id_text (raised s) (raised s)).1 (refl, c))

  abbrev pub Happens : Event → AnalysisRecord → Phase → Type 0
  Happens e a p =
      (b : AnalysisRecord) × (apply casefold id_text (call_for e a) a ≡ ok b) × (phase_of b ≡ p)

  module _ (a : AnalysisRecord) (v : IsConsistent casefold id_text a) (p : Phase) where
    begins-Happens : IsUnasked a → next begins (phase_of a) ≡ some p → Happens begins a p
    unfolding apply start
    begins-Happens u h =
        let s : AnalysisRecord = record a {
          lifecycle = record a.lifecycle { state = running; started_at = some (earliest a) };
        } in
        let c : IsConsistent casefold id_text (raised s) = record {
          fields = ground (arith, v.fields);
          shape = ground (arith, v.shape, complete-ne-zero, ==_refl complete);
          ordered = ground (arith, v.ordered, v.shape);
          published = ground (arith, v.published, v.shape);
        } in
        (raised s, guarded_ok _ _ s (ground arith) c, ground (arith, v.shape))

    withdraws-Happens : next withdraws (phase_of a) ≡ some p → Happens withdraws a p
    unfolding apply cancel_queued
    withdraws-Happens h =
        let s : AnalysisRecord = record a {
          lifecycle = record a.lifecycle {
            state = cancelled;
            cancellation_requested_at = some (earliest a);
            finished_at = some (earliest a);
          };
        } in
        let c : IsConsistent casefold id_text (raised s) = record {
          fields = ground (arith, v.fields);
          shape = ground (arith, v.shape, complete-ne-zero, ==_refl complete);
          ordered = ground (arith, v.ordered, v.shape);
          published = ground (arith, v.published, v.shape);
        } in
        (raised s, guarded_ok _ _ s (ground arith) c, ground (arith, v.shape))

    confirms-Happens : next confirms (phase_of a) ≡ some p → Happens confirms a p
    unfolding apply confirm_cancelled
    confirms-Happens h =
        let s : AnalysisRecord = record a {
          lifecycle = record a.lifecycle {
            state = cancelled;
            progress = no_progress;
            finished_at = some (earliest a);
          };
        } in
        let c : IsConsistent casefold id_text (raised s) = record {
          fields = ground (arith, v.fields, no_progress_valid);
          shape = ground (arith, v.shape, complete-ne-zero, ==_refl complete);
          ordered = ground (arith, v.ordered, v.shape);
          published = ground (arith, v.published, v.shape);
        } in
        (raised s, guarded_ok _ _ s (ground arith) c, ground (arith, v.shape))

    breaks-Happens : next breaks (phase_of a) ≡ some p → Happens breaks a p
    unfolding apply fail
    breaks-Happens h =
        let s : AnalysisRecord = record a {
          lifecycle = record a.lifecycle {
            state = failed;
            progress = no_progress;
            error = some plain_failure;
            finished_at = some (earliest a);
          };
        } in
        let c : IsConsistent casefold id_text (raised s) = record {
          fields = ground (arith, v.fields, no_progress_valid, plain_failure_valid);
          shape = ground (arith, v.shape, complete-ne-zero, ==_refl complete);
          ordered = ground (arith, v.ordered, v.shape);
          published = ground (arith, v.published, v.shape);
        } in
        (raised s, guarded_ok _ _ s (ground arith) c, ground (arith, v.shape))

    completes-Happens : next completes (phase_of a) ≡ some p → Happens completes a p
    unfolding apply succeed
    completes-Happens h =
        let s : AnalysisRecord = record a {
          lifecycle = record a.lifecycle {
            state = succeeded;
            progress = full_progress;
            output_node_ids = [];
            finished_at = some (earliest a);
          };
          result_payload = some 0;
          artifact_references = [];
          query_snapshot = none;
        } in
        let c : IsConsistent casefold id_text (raised s) = record {
          fields = ground (arith, v.fields, full_progress_valid);
          shape = ground (arith, v.shape, complete-ne-zero, ==_refl complete);
          ordered = ground (arith, v.ordered, v.shape);
          published = ground (arith, v.published, v.shape);
        } in
        (raised s, guarded_ok _ _ s (ground arith) c, ground (arith, v.shape))

    asks-Happens : next asks (phase_of a) ≡ some p → Happens asks a p
    unfolding apply request_running_cancellation
    asks-Happens h = elim (Bool-cases (is_some a.lifecycle.cancellation_requested_at)) [
      | inl again ↦ (
        a,
        (simp again (
            (raise_if->> (not (is_running a.lifecycle.state)) _ (ok a) {w = a}).1
              (ground arith, refl))),
        ground arith,
      )
      | inr fresh ↦
          let s : AnalysisRecord = record a {
            lifecycle = record a.lifecycle { cancellation_requested_at = some (earliest a) };
          } in
          let c : IsConsistent casefold id_text (raised s) = record {
            fields = ground (arith, v.fields);
            shape = ground (arith, v.shape);
            ordered = ground (arith, v.ordered, v.shape);
            published = ground (arith, v.published, v.shape);
          } in
          (raised s, simp fresh (guarded_ok _ _ s (ground arith) c), ground (arith, v.shape))
    ]

  -- Every event that the phase of a consistent record allows, if nobody has asked it to stop while it
  -- was queued, happens by one call.
  pub next-Happens :
      (e : Event) (a : AnalysisRecord) {p : Phase}
      → IsConsistent casefold id_text a
      → IsUnasked a
      → next e (phase_of a) ≡ some p
      → Happens e a p
  next-Happens begins a {p} v u h = begins-Happens a v p u h
  next-Happens withdraws a {p} v u h = withdraws-Happens a v p h
  next-Happens asks a {p} v u h = asks-Happens a v p h
  next-Happens confirms a {p} v u h = confirms-Happens a v p h
  next-Happens breaks a {p} v u h = breaks-Happens a v p h
  next-Happens completes a {p} v u h = completes-Happens a v p h
