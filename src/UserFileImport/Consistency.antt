-- ===== src/UserFileImport/Consistency.antt =====
-- What a validated record of user_file_import.py looks like in each state.
use ldaca_wordflow_backend.Base.{
  ◌≤◌, ◌≡◌, refl, ◌↔◌, true, false, not, arith, ltb, is_some, Result, ok, ◌>>=◌, ◌>>◌, ap, sym,
  raise_if, >>-eq-ok,
}
use ldaca_wordflow_backend.Text.{Text, UnicodeData}
use ldaca_wordflow_backend.Background.{
  BackgroundState, queued, running, succeeded, failed, cancelled, is_complete, all_option,
  is_valid_progress, is_valid_failure, precedes, start_or_creation,
}
use ldaca_wordflow_backend.UserFileImport.{
  invalid_progress, invalid_failure, invalid_result, invalid_revision, UserFileImport,
  UserFileImportRequest, ImportError, same_kind, check_state, check_times, validate_lifecycle,
  validate_request, is_valid_result, validate,
}

-- Which fields a record has in each state.
abbrev pub Shape : BackgroundState → UserFileImport → Type 0
Shape queued r =
    (is_some r.started_at ≡ false)
    × (is_some r.finished_at ≡ false)
    × (is_some r.error ≡ false)
    × (is_some r.result ≡ false)
    × (is_complete r.progress ≡ false)
Shape running r =
    (is_some r.started_at ≡ true)
    × (is_some r.finished_at ≡ false)
    × (is_some r.error ≡ false)
    × (is_some r.result ≡ false)
    × (is_complete r.progress ≡ false)
Shape succeeded r =
    (is_some r.started_at ≡ true)
    × (is_some r.finished_at ≡ true)
    × (is_some r.error ≡ false)
    × (is_some r.result ≡ true)
    × (is_complete r.progress ≡ true)
Shape failed r =
    (is_some r.finished_at ≡ true)
    × (is_some r.error ≡ true)
    × (is_some r.result ≡ false)
    × (is_complete r.progress ≡ false)
Shape cancelled r =
    (is_some r.finished_at ≡ true)
    × (is_some r.cancellation_requested_at ≡ true)
    × (is_some r.error ≡ false)
    × (is_some r.result ≡ false)
    × (is_complete r.progress ≡ false)

-- Its result is of the kind of its request, and no timestamp precedes the one that it follows.
pub record IsOrdered (r : UserFileImport) : Type 0 where
  pub kinds_agree : all_option (same_kind r.request) r.result ≡ true
  pub started_after : precedes r.started_at r.created_at ≡ false
  pub cancelled_after : precedes r.cancellation_requested_at r.created_at ≡ false
  pub finished_after : precedes r.finished_at (start_or_creation r.started_at r.created_at) ≡ false

check_state-Shape :
    (s : BackgroundState) (r : UserFileImport)
    → r.state ≡ s
    → (check_state r ≡ ok tt) ↔ (Shape s r × (all_option (same_kind r.request) r.result ≡ true))
unfolding check_state
check_state-Shape queued r e = ground arith
check_state-Shape running r e = ground arith
check_state-Shape succeeded r e = ground arith
check_state-Shape failed r e = ground arith
check_state-Shape cancelled r e = ground arith

check_times-IsOrdered :
    (r : UserFileImport)
    → all_option (same_kind r.request) r.result ≡ true
    → (check_times r ≡ ok tt) ↔ IsOrdered r
unfolding check_times
check_times-IsOrdered r k = ground arith

validate_lifecycle_iff :
    (r t : UserFileImport)
    → (validate_lifecycle r ≡ ok t) ↔ ((t ≡ r) × Shape r.state r × IsOrdered r)
unfolding validate_lifecycle
validate_lifecycle_iff r t =
    let state = check_state-Shape r.state r refl in
    let sequence = >>-eq-ok (check_state r) (check_times r >> ok r) {w = t} in
    let rest = >>-eq-ok (check_times r) (ok r) {w = t} in
    (
      (λ e.
          let (first, second) = sequence.0 e in
          let (shape, kinds) = state.0 first in
          let (times, same) = rest.0 second in
          (ground arith, shape, (check_times-IsOrdered r kinds).0 times)),
      λ c. sequence.1 (
        state.1 (c.1, c.2.kinds_agree),
        rest.1 ((check_times-IsOrdered r c.2.kinds_agree).1 c.2, ap ok (sym c.0)),
      ),
    )

module _ (u : UnicodeData) (trim : Text → Text) where
  -- A request that validation leaves as it is.
  abbrev pub IsCanonical : UserFileImportRequest → Type 0
  IsCanonical q = validate_request u trim q ≡ ok q

  pub record IsConsistent (r : UserFileImport) : Type 0 where
    pub canonical : IsCanonical r.request
    pub progress_valid : is_valid_progress r.progress ≡ true
    pub error_valid : all_option is_valid_failure r.error ≡ true
    pub result_valid : all_option (is_valid_result u trim) r.result ≡ true
    pub revised : 1 ≤ r.revision
    pub shape : Shape r.state r
    pub ordered : IsOrdered r

  -- The tests of `validate` on a record with a canonical request.
  abbrev field_checks : UserFileImport → Result ImportError UserFileImport
  field_checks r = do
    raise_if (not (is_valid_progress r.progress)) invalid_progress
    raise_if (not (all_option is_valid_failure r.error)) invalid_failure
    raise_if (not (all_option (is_valid_result u trim) r.result)) invalid_result
    raise_if (ltb r.revision 1) invalid_revision
    validate_lifecycle r

  validate-field_checks :
      (r : UserFileImport) → IsCanonical r.request → validate u trim r ≡ field_checks r
  unfolding validate
  validate-field_checks r c =
      ap (λ q. q >>= λ request. field_checks (record r { request = request })) c

  field_checks_iff :
      (r t : UserFileImport)
      → (field_checks r ≡ ok t) ↔ (
          (is_valid_progress r.progress ≡ true)
          × (all_option is_valid_failure r.error ≡ true)
          × (all_option (is_valid_result u trim) r.result ≡ true)
          × (1 ≤ r.revision)
          × (validate_lifecycle r ≡ ok t))
  field_checks_iff r t = ground arith

  -- Validation of a record with a canonical request succeeds exactly if the record is consistent,
  -- and returns it unchanged.
  pub validate_iff :
      (r t : UserFileImport)
      → IsCanonical r.request
      → (validate u trim r ≡ ok t) ↔ ((t ≡ r) × IsConsistent r)
  validate_iff r t c =
      let fields = field_checks_iff r t in
      let lifecycle = validate_lifecycle_iff r t in
      rw (validate-field_checks r c) (
        (λ e.
            let (p, f, x, n, l) = fields.0 e in
            let (same, shape, ordered) = lifecycle.0 l in
            (
              same,
              record {
                canonical = c;
                progress_valid = p;
                error_valid = f;
                result_valid = x;
                revised = n;
                shape = shape;
                ordered = ordered;
              },
            )),
        λ h.
            let v = h.1 in
            fields.1 (
              v.progress_valid,
              v.error_valid,
              v.result_valid,
              v.revised,
              lifecycle.1 (h.0, v.shape, v.ordered),
            ),
      )
