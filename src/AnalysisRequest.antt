-- ===== src/AnalysisRequest.antt =====
-- src/ldaca_wordflow/domain/workspace/analysis.py: the requests of Analyses with their validators, the
-- submissions that they come from, and the Data Blocks that they read. A `NonEmptyText` is given as
-- the trimming of its type leaves it. A float is its sign and a multiple of 2 ^ -1074, or not finite;
-- an integer that is only carried is a number.
pub mod Annotation
pub mod Sources
pub mod Inputs
mod Tests
use ldaca_wordflow_backend.Base.{
  ℕ, ◌*◌, Bool, true, false, not, ◌&&◌, ◌||◌, Option, none, some, List, [], ◌∷◌, map, all, any,
  elem, is_distinct, length, is_empty, is_some, ◌==◌, ltb, leb, if◌then◌else◌, Dict,
}
use ldaca_wordflow_backend.Text.{Text}
use ldaca_wordflow_backend.Background.{complete, all_option}
use ldaca_wordflow_backend.AnalysisRequest.Annotation.{
  AnnotationRequest, AnnotationSubmission, is_valid_annotation, persisted_annotation,
}
use ldaca_wordflow_backend.AnalysisRequest.Sources.{
  NodeColumns, is_text_of, ids_of, has_exactly, are_valid_node_columns, DataBlockCreationSource,
  is_valid_source, DocumentSource, is_valid_document_source, TopicDataBlocks,
  are_valid_topic_data_blocks,
}

pub data Float : Type 0 where
  finite : (is_negative : Bool) (magnitude : ℕ) → Float
  not_finite : Float

pub record TokenFrequencyRequest : Type 0 where
  pub nodes : NodeColumns
  pub token_limit : ℕ
  pub node_tokenizer_models : Dict Text

pub data TopicSegmentationMethod : Type 0 where
  automatic paragraph sentence : TopicSegmentationMethod

pub record TopicModelingRequest : Type 0 where
  pub nodes : NodeColumns
  pub min_topic_size : ℕ
  pub random_seed : ℕ
  pub sample_fractions : Option (List (Option Float))
  pub segmentation_method : TopicSegmentationMethod
  pub max_segment_tokens : ℕ

pub data SearchMode : Type 0 where
  regex_mode tokens_mode : SearchMode

pub record ConcordanceRequest : Type 0 where
  pub nodes : NodeColumns
  pub search_word : Text
  pub num_left_tokens : ℕ
  pub num_right_tokens : ℕ
  pub regex : Bool
  pub whole_word : Bool
  pub case_sensitive : Bool
  pub ignore_punctuation : Bool
  pub search_mode : SearchMode
  pub node_tokenizer_models : Dict Text

pub data QuotationEngineType : Type 0 where
  local remote : QuotationEngineType

pub record QuotationEngineSelection : Type 0 where
  pub engine_type : QuotationEngineType
  pub engine_id : Option Text

pub record QuotationRequest : Type 0 where
  pub node_id : ℕ
  pub column : Text
  pub engine : QuotationEngineSelection

pub data Frequency : Type 0 where
  second minute hourly daily weekly monthly quarterly yearly custom : Frequency

pub data IntervalUnit : Type 0 where
  seconds minutes hours days weeks : IntervalUnit

pub data TimeColumnType : Type 0 where
  datetime numeric : TimeColumnType

pub record SequentialRequest : Type 0 where
  pub node_id : ℕ
  pub time_column : Text
  pub group_by_columns : List Text
  pub frequency : Frequency
  pub sort_by_time : Bool
  pub column_type : TimeColumnType
  pub numeric_origin : Option Float
  pub numeric_interval : Option Float
  pub custom_interval_value : Option ℕ
  pub custom_interval_unit : Option IntervalUnit
  pub case_sensitive : Bool

pub data ProcessingMode : Type 0 where
  reprocess_all fill_missing : ProcessingMode

-- `AnalysisRequest`: the six previews and the seven supporting requests.
pub data AnalysisRequest : Type 0 where
  token_frequency : TokenFrequencyRequest → AnalysisRequest
  topic_modeling : TopicModelingRequest → AnalysisRequest
  concordance : ConcordanceRequest → AnalysisRequest
  quotation : QuotationRequest → AnalysisRequest
  sequential : SequentialRequest → AnalysisRequest
  annotation : AnnotationRequest → AnalysisRequest
  concordance_run_all : ConcordanceRequest → AnalysisRequest
  quotation_run_all : QuotationRequest → AnalysisRequest
  annotation_run_all :
      (source : AnnotationRequest) (batch_size : ℕ) (mode : ProcessingMode) → AnalysisRequest
  concordance_matches : List DataBlockCreationSource → AnalysisRequest
  concordance_documents : List DocumentSource → AnalysisRequest
  quotation_result : DataBlockCreationSource → AnalysisRequest
  topic_data_blocks : TopicDataBlocks → AnalysisRequest

-- `AnalysisSubmission`: two of them may carry a credential.
pub data AnalysisSubmission : Type 0 where
  submits : AnalysisRequest → AnalysisSubmission
  submits_annotation : AnnotationSubmission → AnalysisSubmission
  submits_annotation_run_all :
      (source : AnnotationRequest) (batch_size : ℕ) (mode : ProcessingMode) (api_key : Option Text)
      → AnalysisSubmission

-- `validate_selection`
abbrev pub is_valid_engine : QuotationEngineType → Option Text → Bool
is_valid_engine local engine_id = not (is_some engine_id)
is_valid_engine remote none = false
is_valid_engine remote (some engine_id) = is_text_of 64 engine_id

-- `math.isfinite(fraction) and 0 < fraction <= 1`
abbrev pub is_fraction : Float → Bool
is_fraction (finite false n) = ltb 0 n && leb n complete
is_fraction _ = false

abbrev pub are_valid_fractions : List ℕ → Option (List (Option Float)) → Bool
are_valid_fractions node_ids none = true
are_valid_fractions node_ids (some fractions) =
    length fractions == length node_ids && all (all_option is_fraction) fractions

unfoldable pub is_valid_token_frequency : TokenFrequencyRequest → Bool
is_valid_token_frequency r =
    are_valid_node_columns r.nodes
    && leb 1 r.token_limit
    && leb r.token_limit 5000
    && has_exactly r.node_tokenizer_models r.nodes.node_ids
    && all (λ e. leb 1 (length e.1)) r.node_tokenizer_models

unfoldable pub is_valid_topic_modeling : TopicModelingRequest → Bool
is_valid_topic_modeling r =
    are_valid_node_columns r.nodes
    && leb 2 r.min_topic_size
    && leb 32 r.max_segment_tokens
    && leb r.max_segment_tokens 510
    && are_valid_fractions r.nodes.node_ids r.sample_fractions

-- The tokenizers of a concordance, by its mode.
abbrev pub are_valid_tokenizers : SearchMode → Dict Text → List ℕ → Bool
are_valid_tokenizers regex_mode models node_ids = all (λ k. elem k node_ids) (ids_of models)
are_valid_tokenizers tokens_mode models node_ids = has_exactly models node_ids

unfoldable pub is_valid_concordance : ConcordanceRequest → Bool
is_valid_concordance r =
    are_valid_node_columns r.nodes
    && leb 1 (length r.search_word)
    && leb r.num_left_tokens 1000
    && leb r.num_right_tokens 1000
    && all (λ e. leb 1 (length e.1)) r.node_tokenizer_models
    && are_valid_tokenizers r.search_mode r.node_tokenizer_models r.nodes.node_ids

unfoldable pub is_valid_quotation : QuotationRequest → Bool
is_valid_quotation r =
    leb 1 (length r.column) && is_valid_engine r.engine.engine_type r.engine.engine_id

abbrev pub is_positive : Option Float → Bool
is_positive (some (finite false n)) = ltb 0 n
is_positive _ = false

abbrev pub is_finite : Float → Bool
is_finite not_finite = false
is_finite _ = true

-- `validate_interval`
abbrev pub has_interval : TimeColumnType → Frequency → SequentialRequest → Bool
has_interval numeric frequency r = is_positive r.numeric_interval
has_interval datetime custom r = is_some r.custom_interval_value && is_some r.custom_interval_unit
has_interval datetime _ r = true

unfoldable pub is_valid_sequential : SequentialRequest → Bool
is_valid_sequential r =
    leb 1 (length r.time_column)
    && leb (length r.group_by_columns) 3
    && all (λ c. leb 1 (length c)) r.group_by_columns
    && all_option is_finite r.numeric_origin
    && all_option is_finite r.numeric_interval
    && all_option (leb 1) r.custom_interval_value
    && has_interval r.column_type r.frequency r

abbrev pub is_batch_size : ℕ → Bool
is_batch_size n = leb 1 n && leb n 100

-- One or two sources, of different Data Blocks.
abbrev pub are_one_or_two : List ℕ → Bool
are_one_or_two ids = leb 1 (length ids) && leb (length ids) 2 && is_distinct ids

module _ (casefold : Text → Text) where
  unfoldable pub is_valid_request : AnalysisRequest → Bool
  unfolding is_valid_annotation
  is_valid_request (token_frequency r) = is_valid_token_frequency r
  is_valid_request (topic_modeling r) = is_valid_topic_modeling r
  is_valid_request (concordance r) = is_valid_concordance r
  is_valid_request (quotation r) = is_valid_quotation r
  is_valid_request (sequential r) = is_valid_sequential r
  is_valid_request (annotation r) = is_valid_annotation casefold r
  is_valid_request (concordance_run_all r) = is_valid_concordance r
  is_valid_request (quotation_run_all r) = is_valid_quotation r
  is_valid_request (annotation_run_all r n mode) = is_valid_annotation casefold r && is_batch_size n
  is_valid_request (concordance_matches sources) =
      are_one_or_two (map (λ s. s.source_node_id) sources) && all is_valid_source sources
  is_valid_request (concordance_documents sources) =
      are_one_or_two (map (λ s. s.source_node_id) sources) && all is_valid_document_source sources
  is_valid_request (quotation_result s) = is_valid_source s
  is_valid_request (topic_data_blocks r) = are_valid_topic_data_blocks r

-- `persisted_submission`: the credential is not part of what is kept.
unfoldable pub persisted_submission : AnalysisSubmission → AnalysisRequest
persisted_submission (submits request) = request
persisted_submission (submits_annotation s) = annotation (persisted_annotation s)
persisted_submission (submits_annotation_run_all r n mode api_key) = annotation_run_all r n mode

-- `tuple(dict.fromkeys(ids))`: the first of each.
abbrev pub first_of_each : List ℕ → List ℕ → List ℕ
first_of_each seen [] = []
first_of_each seen (x ∷ xs) =
    let rest = first_of_each (x ∷ seen) xs in
    let others = first_of_each seen xs in if elem x seen then others else x ∷ rest

abbrev pub optional_id : Option ℕ → List ℕ
optional_id none = []
optional_id (some i) = i ∷ []

unfoldable pub analysis_input_ids : AnalysisRequest → List ℕ
analysis_input_ids (token_frequency r) = r.nodes.node_ids
analysis_input_ids (topic_modeling r) = r.nodes.node_ids
analysis_input_ids (concordance r) = r.nodes.node_ids
analysis_input_ids (quotation r) = r.node_id ∷ []
analysis_input_ids (sequential r) = r.node_id ∷ []
analysis_input_ids (annotation r) =
    first_of_each [] (r.node_id ∷ r.class_node_id ∷ optional_id r.example_node_id)
analysis_input_ids (concordance_run_all r) = r.nodes.node_ids
analysis_input_ids (quotation_run_all r) = r.node_id ∷ []
analysis_input_ids (annotation_run_all r n mode) =
    first_of_each [] (r.node_id ∷ r.class_node_id ∷ optional_id r.example_node_id)
analysis_input_ids (concordance_matches sources) = map (λ s. s.source_node_id) sources
analysis_input_ids (concordance_documents sources) = map (λ s. s.source_node_id) sources
analysis_input_ids (quotation_result s) = s.source_node_id ∷ []
analysis_input_ids (topic_data_blocks r) = r.node_ids

abbrev pub annotation_snapshot_ids : AnnotationRequest → List ℕ
annotation_snapshot_ids r = first_of_each [] (r.node_id ∷ optional_id r.example_node_id)

unfoldable pub analysis_snapshot_input_ids : AnalysisRequest → List ℕ
analysis_snapshot_input_ids (annotation_run_all r n mode) = annotation_snapshot_ids r
analysis_snapshot_input_ids (annotation r) = annotation_snapshot_ids r
analysis_snapshot_input_ids request = analysis_input_ids request
