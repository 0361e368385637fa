-- ===== src/Derivation.antt =====
-- src/ldaca_wordflow/domain/workspace/provenance.py: the typed operations that a Data Block can be
-- derived by, and their validators. The expressions that some of them hold are in
-- Derivation/Expressions. A float is a multiple of 2 ^ -1074 and is modelled by that multiple.
pub mod Expressions
use ldaca_wordflow_backend.Base.{
  ℕ, ◌+◌, ◌%◌, ◌^◌, Bool, true, false, not, ◌&&◌, ◌||◌, Option, none, some, List, [], ◌∷◌, length,
  is_empty, is_some, all, ◌==◌, ltb, leb, if◌then◌else◌,
}
use ldaca_wordflow_backend.Background.{complete, all_option}
use ldaca_wordflow_backend.Text.{Text}
use ldaca_wordflow_backend.Derivation.Expressions.{
  FilterValue, Expression, is_text_between, is_valid_expression,
}

pub data FilterOperator : Type 0 where
  eq ne gt gte lt lte is_in contains starts_with ends_with is_null is_not_null between :
      FilterOperator

pub record FilterCondition : Type 0 where
  pub column : Text
  pub operator : FilterOperator
  pub value : FilterValue
  pub negate : Bool
  pub regex : Bool
  pub case_sensitive : Bool

pub record ExpressionItem : Type 0 where
  pub expression : Expression
  pub alias : Option Text
  pub descending : Bool

pub data SliceMode : Type 0 where
  slice random_sample shuffle : SliceMode

pub data Logic : Type 0 where
  conjunction disjunction : Logic

pub data ReplaceMode : Type 0 where
  replace extract : ReplaceMode

pub data ExpressionContext : Type 0 where
  filter_rows with_columns select_columns sort_rows group_by_agg : ExpressionContext

pub data JoinHow : Type 0 where
  inner left_join right_join full semi anti cross : JoinHow

pub data CastTarget : Type 0 where
  to_string to_integer to_float to_datetime to_categorical : CastTarget

pub data AnnotationProvider : Type 0 where
  openai openrouter anthropic google custom : AnnotationProvider

pub data TopicRole : Type 0 where
  topic_data topic_meanings : TopicRole

pub data DerivationOperation : Type 0 where
  clone : DerivationOperation
  slice_rows :
      (mode : SliceMode) (offset : ℕ) (row_count sample_size random_seed : Option ℕ)
      → DerivationOperation
  filter : (conditions : List FilterCondition) (logic : Logic) → DerivationOperation
  replace_text :
      (source_column pattern_text replacement : Text) (output_column : Option Text)
      (mode : ReplaceMode) (first_only : Bool) (match_limit : Option ℕ) (connector : Text)
      → DerivationOperation
  expression :
      (context : ExpressionContext) (expressions group_by : List ExpressionItem)
      → DerivationOperation
  concat : (deduplicate : Bool) → DerivationOperation
  join : (left_on right_on : Option Text) (how : JoinHow) → DerivationOperation
  cast_column :
      (column : Text) (target : CastTarget) (datetime_format : Option Text) (strict : Bool)
      → DerivationOperation
  sql : (query : Text) → DerivationOperation
  annotation :
      (annotation_column : Text) (provider : AnnotationProvider) (model : Text)
      → DerivationOperation
  concordance_match : DerivationOperation
  concordance_document : DerivationOperation
  quotation_result : DerivationOperation
  topic_modeling : (role : TopicRole) → DerivationOperation

-- The constraints of `FilterCondition` and of `ExpressionItem`.
unfoldable pub is_valid_condition : FilterCondition → Bool
is_valid_condition c = leb 1 (length c.column)

unfoldable pub is_valid_item : ExpressionItem → Bool
is_valid_item i = is_valid_expression i.expression && all_option (is_text_between 1 200) i.alias

-- `sample_size >= 1 and not sample_size.is_integer()`
abbrev pub is_bad_size : ℕ → Bool
is_bad_size size = leb complete size && not (size % complete == 0)

-- `validate_sampling`
abbrev pub is_valid_sampling : SliceMode → Option ℕ → Bool
is_valid_sampling random_sample sample_size = elim sample_size [
  | none ↦ false
  | some size ↦ not (is_bad_size size)
]
is_valid_sampling _ sample_size = true

-- `validate_context`
abbrev pub is_valid_context : ExpressionContext → List ExpressionItem → List ExpressionItem → Bool
is_valid_context filter_rows expressions group_by = length expressions == 1
is_valid_context group_by_agg expressions group_by = not (is_empty group_by)
is_valid_context _ expressions group_by = true

-- `not left_on`: missing, or empty.
abbrev pub is_falsy : Option Text → Bool
is_falsy none = true
is_falsy (some t) = is_empty t

abbrev pub is_cross : JoinHow → Bool
is_cross cross = true
is_cross _ = false

-- The constraints of each operation's fields and its validator.
unfoldable pub is_valid_operation : DerivationOperation → Bool
is_valid_operation clone = true
is_valid_operation (slice_rows mode offset row_count sample_size random_seed) =
    all_option (ltb 0) sample_size && is_valid_sampling mode sample_size
is_valid_operation (filter conditions logic) =
    leb 1 (length conditions) && all is_valid_condition conditions
is_valid_operation
      (replace_text source pattern_text replacement output mode first limit connector) =
    is_text_between 1 200 source
    && leb 1 (length pattern_text)
    && all_option (λ t. leb (length t) 200) output
    && all_option (leb 1) limit
is_valid_operation (expression context expressions group_by) =
    leb 1 (length expressions)
    && all is_valid_item expressions
    && all is_valid_item group_by
    && is_valid_context context expressions group_by
is_valid_operation (concat deduplicate) = true
is_valid_operation (join left_on right_on how) =
    is_cross how || not (is_falsy left_on || is_falsy right_on)
is_valid_operation (cast_column column target datetime_format strict) = leb 1 (length column)
is_valid_operation (sql query) = leb 1 (length query)
is_valid_operation (annotation column provider model) =
    is_text_between 1 500 column && is_text_between 1 500 model
is_valid_operation concordance_match = true
is_valid_operation concordance_document = true
is_valid_operation quotation_result = true
is_valid_operation (topic_modeling role) = true
