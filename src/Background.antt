-- ===== src/Background.antt =====
-- src/ldaca_wordflow/domain/background.py: the lifecycle values that Analyses and User File Imports
-- share. A double between 0 and 1 is a multiple of 2 ^ -1074, and is modelled by that multiple.
use ldaca_wordflow_backend.Base.{
  ℕ, ◌^◌, ◌≡◌, refl, Bool, true, false, ◌&&◌, ◌||◌, not, Option, none, some, [], ◌∷◌, ltb, leb,
  ◌==◌, any, all, length, eq_option,
}
use ldaca_wordflow_backend.Text.{Text}

pub data BackgroundState : Type 0 where
  queued running succeeded failed cancelled : BackgroundState

-- Membership in {SUCCEEDED, FAILED, CANCELLED}.
abbrev pub is_terminal : BackgroundState → Bool
is_terminal queued = false
is_terminal running = false
is_terminal succeeded = true
is_terminal failed = true
is_terminal cancelled = true

abbrev pub is_queued : BackgroundState → Bool
is_queued queued = true
is_queued _ = false

abbrev pub is_running : BackgroundState → Bool
is_running running = true
is_running _ = false

abbrev pub is_succeeded : BackgroundState → Bool
is_succeeded succeeded = true
is_succeeded _ = false

abbrev pub is_failed : BackgroundState → Bool
is_failed failed = true
is_failed _ = false

abbrev pub is_cancelled : BackgroundState → Bool
is_cancelled cancelled = true
is_cancelled _ = false

-- The fraction 1.0.
unfoldable pub complete : ℕ
complete = 2 ^ 1074

pub complete-ne-zero : (complete == 0) ≡ false
unfolding complete
complete-ne-zero = refl

pub record Progress : Type 0 where
  pub fraction : Option ℕ
  pub message : Option Text

pub record Failure : Type 0 where
  pub code : Text
  pub message : Text

-- `progress.fraction == 1.0`
abbrev pub is_complete : Progress → Bool
is_complete p = eq_option p.fraction (some complete)

-- Unicode category Cc.
abbrev pub is_control : ℕ → Bool
is_control c = ltb c 32 || (leb 127 c && leb c 159)

-- `SafePublicText`: between 1 and 500 characters, no control character.
unfoldable pub is_safe_public_text : Text → Bool
is_safe_public_text t = leb 1 (length t) && leb (length t) 500 && not (any is_control t)

abbrev pub all_option {ℓ} : {A : Type ℓ} → (A → Bool) → Option A → Bool
all_option p none = true
all_option p (some a) = p a

-- The field constraints of `Progress`.
unfoldable pub is_valid_progress : Progress → Bool
unfolding is_safe_public_text
is_valid_progress p =
    all_option (λ f. leb f complete) p.fraction && all_option is_safe_public_text p.message

abbrev pub is_lower : ℕ → Bool
is_lower c = leb b'a' c && leb c b'z'

-- `^[a-z][a-z0-9_]*$`
abbrev pub is_failure_code : Text → Bool
is_failure_code [] = false
is_failure_code (c ∷ cs) =
    is_lower c && all (λ d. is_lower d || (leb b'0' d && leb d b'9') || d == b'_') cs

-- The field constraints of `Failure`.
unfoldable pub is_valid_failure : Failure → Bool
unfolding is_safe_public_text
is_valid_failure f =
    is_failure_code f.code && leb (length f.code) 100 && is_safe_public_text f.message

-- `a is not None and a < b`, for `b` a lower bound
abbrev pub precedes : Option ℕ → ℕ → Bool
precedes none bound = false
precedes (some t) bound = ltb t bound

-- `self.started_at or self.created_at`
abbrev pub start_or_creation : Option ℕ → ℕ → ℕ
start_or_creation none created_at = created_at
start_or_creation (some t) created_at = t
