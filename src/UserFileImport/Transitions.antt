-- ===== src/UserFileImport/Transitions.antt =====
-- When each method of user_file_import.py succeeds, and with which record.
use ldaca_wordflow_backend.Base.{
  subst, sym, ap, false≢true, Bool-cases, ℕ, ◌+◌, ◌≤◌, ◌≡◌, refl, ◌↔◌, ◌⊎◌, inl, inr, Bool, true,
  false, ◌||◌, not, some, arith, is_some, if◌then◌else◌, Result, ok, ◌>>◌, raise_if, raise_if->>,
  ==_refl,
}
use ldaca_wordflow_backend.Text.{Text, codes, UnicodeData}
use ldaca_wordflow_backend.Background.{
  queued, running, succeeded, failed, cancelled, is_queued, is_running, is_complete, complete,
  Progress, Failure, is_valid_progress, is_valid_failure, start_or_creation,
}
use ldaca_wordflow_backend.UserFileImport.{
  UserFileImport, UserFileImportResult, ImportError, same_kind, is_valid_result, transition, start,
  cancel_queued, request_running_cancellation, confirm_cancelled, fail, succeed, not_queued,
  not_running, not_requested, not_live,
}
use ldaca_wordflow_backend.UserFileImport.Consistency.{IsCanonical, IsConsistent, validate_iff}

-- The calls of the methods.
pub data Op : Type 0 where
  starts : ℕ → Op
  cancels_queued : ℕ → Op
  requests_cancellation : ℕ → Op
  confirms_cancelled : ℕ → Progress → Op
  fails : ℕ → Failure → Progress → Op
  succeeds : ℕ → UserFileImportResult → Op

abbrev pub success_progress : Progress
success_progress = record { fraction = some complete; message = some (codes "Complete") }

module _ (u : UnicodeData) (trim : Text → Text) where
  unfoldable pub apply : Op → UserFileImport → Result ImportError UserFileImport
  apply (starts t) r = start u trim t r
  apply (cancels_queued t) r = cancel_queued u trim t r
  apply (requests_cancellation t) r = request_running_cancellation u trim t r
  apply (confirms_cancelled t p) r = confirm_cancelled u trim t p r
  apply (fails t f p) r = fail u trim t f p r
  apply (succeeds t x) r = succeed u trim t x r

  -- The values that a call hands over are valid instances.
  abbrev pub HasValidArguments : Op → Type 0
  HasValidArguments (confirms_cancelled t p) = is_valid_progress p ≡ true
  HasValidArguments (fails t f p) = (is_valid_failure f ≡ true) × (is_valid_progress p ≡ true)
  HasValidArguments (succeeds t x) = is_valid_result u trim x ≡ true
  HasValidArguments _ = Unit

-- The state and the times in which a call is allowed.
abbrev pub IsEnabled : Op → UserFileImport → Type 0
IsEnabled (starts t) r = (r.state ≡ queued) × (r.created_at ≤ t)
IsEnabled (cancels_queued t) r = (r.state ≡ queued) × (r.created_at ≤ t)
IsEnabled (requests_cancellation t) r =
    (r.state ≡ running) × ((is_some r.cancellation_requested_at ≡ true) ⊎ (r.created_at ≤ t))
IsEnabled (confirms_cancelled t p) r =
    (r.state ≡ running)
    × (is_some r.cancellation_requested_at ≡ true)
    × (is_complete p ≡ false)
    × (start_or_creation r.started_at r.created_at ≤ t)
IsEnabled (fails t f p) r =
    ((r.state ≡ queued) ⊎ (r.state ≡ running))
    × (is_complete p ≡ false)
    × (start_or_creation r.started_at r.created_at ≤ t)
IsEnabled (succeeds t x) r =
    (r.state ≡ running)
    × (same_kind r.request x ≡ true)
    × (start_or_creation r.started_at r.created_at ≤ t)

-- The record that an allowed call leaves.
abbrev pub after : Op → UserFileImport → UserFileImport
after (starts t) r = record r { state = running; started_at = some t; revision = r.revision + 1 }
after (cancels_queued t) r = record r {
  state = cancelled;
  cancellation_requested_at = some t;
  finished_at = some t;
  revision = r.revision + 1;
}
after (requests_cancellation t) r =
    if is_some r.cancellation_requested_at
    then r
    else record r { cancellation_requested_at = some t; revision = r.revision + 1 }
after (confirms_cancelled t p) r = record r {
  state = cancelled;
  progress = p;
  finished_at = some t;
  revision = r.revision + 1;
}
after (fails t f p) r = record r {
  state = failed;
  progress = p;
  error = some f;
  finished_at = some t;
  revision = r.revision + 1;
}
after (succeeds t x) r = record r {
  state = succeeded;
  progress = success_progress;
  result = some x;
  finished_at = some t;
  revision = r.revision + 1;
}

success_progress-valid : is_valid_progress success_progress ≡ true
unfolding is_valid_progress complete
success_progress-valid = refl

module _ (u : UnicodeData) (trim : Text → Text) (r : UserFileImport)
    (v : IsConsistent u trim r) where
  starts-IsConsistent :
      (t : ℕ) → r.state ≡ queued → IsConsistent u trim (after (starts t) r) ↔ (r.created_at ≤ t)
  starts-IsConsistent t e = ground (arith, v.shape, v.ordered, v.canonical)

  cancels_queued-IsConsistent :
      (t : ℕ)
      → r.state ≡ queued
      → IsConsistent u trim (after (cancels_queued t) r) ↔ (r.created_at ≤ t)
  cancels_queued-IsConsistent t e = ground (arith, v.shape, v.ordered)

  requests_cancellation-IsConsistent :
      (t : ℕ)
      → r.state ≡ running
      → is_some r.cancellation_requested_at ≡ false
      → IsConsistent u trim
          (record r { cancellation_requested_at = some t; revision = r.revision + 1 })
        ↔ (r.created_at ≤ t)
  requests_cancellation-IsConsistent t e n = ground (arith, v.shape, v.ordered)

  confirms_cancelled-IsConsistent :
      (t : ℕ) (p : Progress)
      → r.state ≡ running
      → is_some r.cancellation_requested_at ≡ true
      → is_valid_progress p ≡ true
      → IsConsistent u trim (after (confirms_cancelled t p) r)
        ↔ ((is_complete p ≡ false) × (start_or_creation r.started_at r.created_at ≤ t))
  confirms_cancelled-IsConsistent t p e c h = ground (arith, v.shape, v.ordered)

  fails-IsConsistent :
      (t : ℕ) (f : Failure) (p : Progress)
      → (r.state ≡ queued) ⊎ (r.state ≡ running)
      → is_valid_failure f ≡ true
      → is_valid_progress p ≡ true
      → IsConsistent u trim (after (fails t f p) r)
        ↔ ((is_complete p ≡ false) × (start_or_creation r.started_at r.created_at ≤ t))
  fails-IsConsistent t f p e g h = ground (arith, v.shape, v.ordered)

  succeeds-IsConsistent :
      (t : ℕ) (x : UserFileImportResult)
      → r.state ≡ running
      → is_valid_result u trim x ≡ true
      → IsConsistent u trim (after (succeeds t x) r)
        ↔ ((same_kind r.request x ≡ true) × (start_or_creation r.started_at r.created_at ≤ t))
  succeeds-IsConsistent t x e h =
      ground (arith, v.shape, v.ordered, success_progress-valid, ==_refl complete)

  -- A transition to a record with the same request.
  transition_iff :
      (s t : UserFileImport)
      → s.request ≡ r.request
      → (transition u trim s ≡ ok t) ↔ (
          (t ≡ record s { revision = s.revision + 1 })
          × IsConsistent u trim (record s { revision = s.revision + 1 }))
  unfolding transition
  transition_iff s t same =
      validate_iff u trim (record s { revision = s.revision + 1 }) t
        (subst (IsCanonical u trim) (sym same) v.canonical)

  -- A guarded transition, where the changed record is consistent exactly if `Ready`.
  guarded_iff :
      (guard : Bool) (error : ImportError) (s t : UserFileImport) (Ready : Type 0)
      → s.request ≡ r.request
      → (guard ≡ false → IsConsistent u trim (record s { revision = s.revision + 1 }) ↔ Ready)
      → ((raise_if guard error >> transition u trim s) ≡ ok t) ↔ (
          (guard ≡ false)
          × Ready
          × (t ≡ record s { revision = s.revision + 1 })
          × IsConsistent u trim t)
  guarded_iff guard error s t Ready same ready =
      let raised = raise_if->> guard error (transition u trim s) {w = t} in
      let moved = transition_iff s t same in
      (
        (λ e.
            let (g, k) = raised.0 e in
            let (eq, c) = moved.0 k in
            (g, (ready g).0 c, eq, subst (IsConsistent u trim) (sym eq) c)),
        λ h. raised.1 (h.0, moved.1 (h.2, (ready h.0).1 h.1)),
      )

  -- A second request for cancellation returns the record as it is.
  requests_cancellation_iff :
      (at : ℕ) (t : UserFileImport)
      → (request_running_cancellation u trim at r ≡ ok t) ↔ (
          IsEnabled (requests_cancellation at) r
          × (t ≡ after (requests_cancellation at) r)
          × IsConsistent u trim t)
  unfolding request_running_cancellation
  requests_cancellation_iff at t = elim (Bool-cases (is_some r.cancellation_requested_at)) [
    | inl again ↦
        let g = raise_if->> (not (is_running r.state)) not_running (ok r) {w = t} in
        simp again (
          (λ e.
              let (q, same) = g.0 e in
              let eq : r ≡ t = ground arith in
              ((ground arith, inl refl), sym eq, subst (IsConsistent u trim) eq v)),
          λ e. g.1 (ground arith, ap ok (sym e.1)),
        )
    | inr fresh ↦
        let g =
          guarded_iff (not (is_running r.state)) not_running
            (record r { cancellation_requested_at = some at }) t (r.created_at ≤ at) refl
            (λ e. requests_cancellation-IsConsistent at (ground arith) fresh) in
        simp fresh (
          (λ e. let (q, ready, same, c) = g.0 e in ((ground arith, inr ready), same, c)),
          λ e. g.1 (
            ground arith,
            (elim e.0.1 [ inl again ↦ absurd (false≢true again) | inr le ↦ le ]),
            e.1,
            e.2,
          ),
        )
  ]

  -- A call with valid arguments succeeds exactly if it is enabled, and then returns the record that
  -- `after` gives, which is consistent.
  pub apply_iff :
      (op : Op) (t : UserFileImport)
      → HasValidArguments u trim op
      → (apply u trim op r ≡ ok t) ↔ (IsEnabled op r × (t ≡ after op r) × IsConsistent u trim t)
  unfolding apply start cancel_queued request_running_cancellation confirm_cancelled fail succeed
  apply_iff (starts at) t h =
      let g =
        guarded_iff (not (is_queued r.state)) not_queued
          (record r { state = running; started_at = some at }) t (r.created_at ≤ at) refl
          (λ e. starts-IsConsistent at (ground arith)) in
      (
        (λ e. let (q, ready, same, c) = g.0 e in ((ground arith, ready), same, c)),
        λ e. g.1 (ground arith, e.0.1, e.1, e.2),
      )
  apply_iff (cancels_queued at) t h =
      let g =
        guarded_iff (not (is_queued r.state)) not_queued
          (record r {
            state = cancelled;
            cancellation_requested_at = some at;
            finished_at = some at;
          })
          t (r.created_at ≤ at) refl (λ e. cancels_queued-IsConsistent at (ground arith)) in
      (
        (λ e. let (q, ready, same, c) = g.0 e in ((ground arith, ready), same, c)),
        λ e. g.1 (ground arith, e.0.1, e.1, e.2),
      )
  apply_iff (requests_cancellation at) t h = requests_cancellation_iff at t
  apply_iff (confirms_cancelled at p) t h =
      let g =
        guarded_iff (not (is_running r.state) || not (is_some r.cancellation_requested_at))
          not_requested (record r { state = cancelled; progress = p; finished_at = some at }) t
          ((is_complete p ≡ false) × (start_or_creation r.started_at r.created_at ≤ at)) refl
          (λ e. confirms_cancelled-IsConsistent at p (ground arith) (ground arith) h) in
      (
        (λ e.
            let (q, ready, same, c) = g.0 e in
            ((ground arith, ground arith, ready.0, ready.1), same, c)),
        λ e. g.1 (ground arith, (e.0.2, e.0.3), e.1, e.2),
      )
  apply_iff (fails at f p) t h =
      let g =
        guarded_iff (not (is_queued r.state || is_running r.state)) not_live
          (record r { state = failed; progress = p; error = some f; finished_at = some at }) t
          ((is_complete p ≡ false) × (start_or_creation r.started_at r.created_at ≤ at)) refl
          (λ e. fails-IsConsistent at f p (ground arith) h.0 h.1) in
      (
        (λ e. let (q, ready, same, c) = g.0 e in ((ground arith, ready.0, ready.1), same, c)),
        λ e. g.1 (ground arith, (e.0.1, e.0.2), e.1, e.2),
      )
  apply_iff (succeeds at x) t h =
      let g =
        guarded_iff (not (is_running r.state)) not_running
          (record r {
            state = succeeded;
            progress = success_progress;
            result = some x;
            finished_at = some at;
          })
          t ((same_kind r.request x ≡ true) × (start_or_creation r.started_at r.created_at ≤ at))
          refl (λ e. succeeds-IsConsistent at x (ground arith) h) in
      (
        (λ e. let (q, ready, same, c) = g.0 e in ((ground arith, ready.0, ready.1), same, c)),
        λ e. g.1 (ground arith, (e.0.1, e.0.2), e.1, e.2),
      )
