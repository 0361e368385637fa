-- ===== src/UserFileImport/History.antt =====
-- Every history of calls of the methods of user_file_import.py.
use ldaca_wordflow_backend.Base.{
  ℕ, ◌≤◌, ◌≡◌, refl, ◌∙◌, ap, sym, subst, true, false, List, [], ◌∷◌, arith, is_some, All,
  if◌then◌else◌, Result, ok, err,
}
use ldaca_wordflow_backend.Text.{Text, UnicodeData}
use ldaca_wordflow_backend.Background.{
  BackgroundState, queued, running, succeeded, failed, cancelled, is_terminal,
}
use ldaca_wordflow_backend.UserFileImport.{
  UserFileImport, UserFileImportRequest, ImportError, create,
}
use ldaca_wordflow_backend.UserFileImport.Consistency.{IsCanonical, IsConsistent, validate_iff}
use ldaca_wordflow_backend.UserFileImport.Transitions.{
  Op, starts, cancels_queued, requests_cancellation, confirms_cancelled, fails, succeeds, apply,
  HasValidArguments, IsEnabled, after, apply_iff,
}

-- A call that raises leaves the record as it was.
abbrev pub or_kept : UserFileImport → Result ImportError UserFileImport → UserFileImport
or_kept r (ok t) = t
or_kept r (err e) = r

-- How many changes lie behind a record.
abbrev pub HasRevision : BackgroundState → UserFileImport → Type 0
HasRevision queued r = (r.revision ≡ 1) × (is_some r.cancellation_requested_at ≡ false)
HasRevision running r = r.revision ≡ (if is_some r.cancellation_requested_at then 3 else 2)
HasRevision _ r = r.revision ≤ 4

-- The fields that no call changes.
abbrev pub SameImport : UserFileImport → UserFileImport → Type 0
SameImport r t = (t.id ≡ r.id) × (t.request ≡ r.request) × (t.created_at ≡ r.created_at)

after-HasRevision :
    (op : Op) (r : UserFileImport)
    → IsEnabled op r
    → HasRevision r.state r
    → HasRevision (after op r).state (after op r)
after-HasRevision (starts t) r e h = ground arith
after-HasRevision (cancels_queued t) r e h = ground arith
after-HasRevision (requests_cancellation t) r e h = ground arith
after-HasRevision (confirms_cancelled t p) r e h = ground arith
after-HasRevision (fails t f p) r e h = ground arith
after-HasRevision (succeeds t x) r e h = ground arith

after-SameImport : (op : Op) (r : UserFileImport) → SameImport r (after op r)
after-SameImport (starts t) r = (refl, refl, refl)
after-SameImport (cancels_queued t) r = (refl, refl, refl)
after-SameImport (requests_cancellation t) r = ground arith
after-SameImport (confirms_cancelled t p) r = (refl, refl, refl)
after-SameImport (fails t f p) r = (refl, refl, refl)
after-SameImport (succeeds t x) r = (refl, refl, refl)

not-IsEnabled : (op : Op) (r : UserFileImport) → is_terminal r.state ≡ true → IsEnabled op r → ⊥
not-IsEnabled (starts t) r h e = ground arith
not-IsEnabled (cancels_queued t) r h e = ground arith
not-IsEnabled (requests_cancellation t) r h e = ground arith
not-IsEnabled (confirms_cancelled t p) r h e = ground arith
not-IsEnabled (fails t f p) r h e = ground arith
not-IsEnabled (succeeds t x) r h e = ground arith

revision_bounded : (s : BackgroundState) (r : UserFileImport) → HasRevision s r → r.revision ≤ 4
revision_bounded queued r h = omega arith
revision_bounded running r h = ground arith
revision_bounded succeeded r h = h
revision_bounded failed r h = h
revision_bounded cancelled r h = h

module _ (u : UnicodeData) (trim : Text → Text) where
  unfoldable pub run : List Op → UserFileImport → UserFileImport
  run [] r = r
  run (op ∷ ops) r = run ops (or_kept r (apply u trim op r))

  -- What holds of every record between two calls.
  pub record IsReached (origin r : UserFileImport) : Type 0 where
    pub consistent : IsConsistent u trim r
    pub counted : HasRevision r.state r
    pub same : SameImport origin r

  or_kept-IsReached :
      (origin r : UserFileImport) (op : Op) (result : Result ImportError UserFileImport)
      → HasValidArguments u trim op
      → IsReached origin r
      → apply u trim op r ≡ result
      → IsReached origin (or_kept r result)
  or_kept-IsReached origin r op (err e) a h q = h
  or_kept-IsReached origin r op (ok t) a h q =
      let (enabled, eq, c) = (apply_iff u trim r h.consistent op t a).0 q in
      record {
        consistent = c;
        counted = rw eq (after-HasRevision op r enabled h.counted);
        same = rw eq (ground (arith, after-SameImport op r, h.same));
      }

  run-IsReached :
      (origin : UserFileImport) (ops : List Op) (r : UserFileImport)
      → All (HasValidArguments u trim) ops
      → IsReached origin r
      → IsReached origin (run ops r)
  unfolding run
  run-IsReached origin [] r a h = h
  run-IsReached origin (op ∷ ops) r a h =
      run-IsReached origin ops _ a.1 (or_kept-IsReached origin r op (apply u trim op r) a.0 h refl)

  create-IsReached :
      (request : UserFileImportRequest) (timestamp id : ℕ) {r : UserFileImport}
      → IsCanonical u trim request
      → create u trim request timestamp id ≡ ok r
      → IsReached r r
  unfolding create
  create-IsReached request timestamp id {r} c e =
      let (same, consistent) = (validate_iff u trim _ r c).0 e in
      record {
        consistent = subst (IsConsistent u trim) (sym same) consistent;
        counted = rw same (refl, refl);
        same = (refl, refl, refl);
      }

  -- Whatever calls are made on a new import, and whichever of them raise: its record stays
  -- consistent, keeps its id, request and creation time, and changes at most three times.
  pub run-create :
      (request : UserFileImportRequest) (timestamp id : ℕ) (ops : List Op) {r : UserFileImport}
      → IsCanonical u trim request
      → create u trim request timestamp id ≡ ok r
      → All (HasValidArguments u trim) ops
      → IsConsistent u trim (run ops r) × SameImport r (run ops r) × ((run ops r).revision ≤ 4)
  run-create request timestamp id ops {r} c e a =
      let h = run-IsReached r ops r a (create-IsReached request timestamp id c e) in
      (h.consistent, h.same, revision_bounded (run ops r).state (run ops r) h.counted)

  or_kept-terminal :
      (r : UserFileImport) (op : Op) (result : Result ImportError UserFileImport)
      → HasValidArguments u trim op
      → IsConsistent u trim r
      → is_terminal r.state ≡ true
      → apply u trim op r ≡ result
      → or_kept r result ≡ r
  or_kept-terminal r op (err e) a c t q = refl
  or_kept-terminal r op (ok s) a c t q =
      absurd (not-IsEnabled op r t ((apply_iff u trim r c op s a).0 q).0)

  -- Once an import has succeeded, failed or been cancelled, no call changes its record.
  pub run-terminal :
      (ops : List Op) (r : UserFileImport)
      → All (HasValidArguments u trim) ops
      → IsConsistent u trim r
      → is_terminal r.state ≡ true
      → run ops r ≡ r
  unfolding run
  run-terminal [] r a c t = refl
  run-terminal (op ∷ ops) r a c t =
      ap (run ops) (or_kept-terminal r op (apply u trim op r) a.0 c t refl)
      ∙ run-terminal ops r a.1 c t
