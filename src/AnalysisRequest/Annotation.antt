-- ===== src/AnalysisRequest/Annotation.antt =====
-- Annotation requests of analysis.py, with the provider of domain/annotation.py that they capture. A
-- base URL is given as `normalize_annotation_provider_base_url` leaves it.
use ldaca_wordflow_backend.Base.{
  ℕ, ◌*◌, Bool, true, false, not, ◌&&◌, ◌||◌, Option, none, some, List, map, all, length, is_some,
  leb, eq_bool,
}
use ldaca_wordflow_backend.Text.{Text, text_eq}
use ldaca_wordflow_backend.Background.{complete, all_option}
use ldaca_wordflow_backend.Derivation.{AnnotationProvider, custom}
use ldaca_wordflow_backend.AnalysisRequest.Sources.{is_text_of, are_distinct_texts}

pub record AnnotationClass : Type 0 where
  pub name : Text
  pub description : Text

pub data SamplingMethod : Type 0 where
  random first_n last_n : SamplingMethod

pub data ReasoningEffort : Type 0 where
  low medium high : ReasoningEffort

-- `_AnnotationInferenceFields`; the temperature is a multiple of 2 ^ -1074, never negative.
pub record AnnotationRequest : Type 0 where
  pub provider_configuration_id : ℕ
  pub provider : AnnotationProvider
  pub provider_base_url : Option Text
  pub node_id : ℕ
  pub text_column : Text
  pub annotation_column : Text
  pub correction_column : Option Text
  pub class_node_id : ℕ
  pub class_column : Text
  pub description_column : Text
  pub example_node_id : Option ℕ
  pub example_text_column : Option Text
  pub example_annotation_column : Option Text
  pub max_examples_per_class : ℕ
  pub example_sampling_method : SamplingMethod
  pub example_random_seed : ℕ
  pub classes : List AnnotationClass
  pub model : Text
  pub instruction : Text
  pub temperature : ℕ
  pub max_retries_per_batch : ℕ
  pub reasoning_enabled : Bool
  pub reasoning_effort : ReasoningEffort

-- `AnnotationAnalysisSubmission`
pub record AnnotationSubmission : Type 0 where
  pub fields : AnnotationRequest
  pub api_key : Option Text

abbrev pub is_custom : AnnotationProvider → Bool
is_custom custom = true
is_custom _ = false

-- `validate_locator`
unfoldable pub is_valid_locator : AnnotationRequest → Bool
is_valid_locator r =
    eq_bool (is_custom r.provider) (is_some r.provider_base_url)
    && all_option (λ t. leb (length t) 2000) r.provider_base_url

abbrev pub is_valid_class : AnnotationClass → Bool
is_valid_class c = is_text_of 200 c.name && leb (length c.description) 2000

-- The three example fields come together.
abbrev pub are_together : Option ℕ → Option Text → Option Text → Bool
are_together none none none = true
are_together (some n) (some t) (some a) = true
are_together _ _ _ = false

unfoldable pub are_valid_columns : AnnotationRequest → Bool
are_valid_columns r =
    is_text_of 500 r.text_column
    && is_text_of 500 r.annotation_column
    && all_option (is_text_of 500) r.correction_column
    && is_text_of 500 r.class_column
    && is_text_of 500 r.description_column
    && all_option (is_text_of 500) r.example_text_column
    && all_option (is_text_of 500) r.example_annotation_column
    && all_option (λ c. not (text_eq c r.text_column || text_eq c r.annotation_column))
        r.correction_column
    && are_together r.example_node_id r.example_text_column r.example_annotation_column

unfoldable pub are_valid_limits : AnnotationRequest → Bool
are_valid_limits r =
    leb 1 r.max_examples_per_class
    && is_text_of 500 r.model
    && is_text_of 20000 r.instruction
    && leb r.temperature (2 * complete)
    && leb r.max_retries_per_batch 10

module _ (casefold : Text → Text) where
  unfoldable pub is_valid_annotation : AnnotationRequest → Bool
  is_valid_annotation r =
      is_valid_locator r
      && are_valid_columns r
      && are_valid_limits r
      && leb 1 (length r.classes)
      && leb (length r.classes) 200
      && all is_valid_class r.classes
      && are_distinct_texts (map (λ c. casefold c.name) r.classes)

-- `persisted_request`
unfoldable pub persisted_annotation : AnnotationSubmission → AnnotationRequest
persisted_annotation s = s.fields
