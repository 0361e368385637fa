-- ===== src/AnalysisRequest/Sources.antt =====
-- The parts of the requests in analysis.py that name Data Blocks with their columns.
use ldaca_wordflow_backend.Base.{
  ℕ, Bool, true, false, not, ◌&&◌, Option, none, some, List, [], ◌∷◌, map, all, elem, is_distinct,
  length, ltb, leb, Dict,
}
use ldaca_wordflow_backend.Text.{Text, text_in}
use ldaca_wordflow_backend.Background.{all_option}

-- `NonEmptyText` with a maximal length.
abbrev pub is_text_of : ℕ → Text → Bool
is_text_of high t = leb 1 (length t) && leb (length t) high

abbrev pub ids_of {ℓ} : {V : Type ℓ} → Dict V → List ℕ
ids_of d = map (λ e. e.0) d

-- `set(d) == set(ids)`
abbrev pub has_exactly {ℓ} : {V : Type ℓ} → Dict V → List ℕ → Bool
has_exactly d ids = all (λ k. elem k ids) (ids_of d) && all (λ i. elem i (ids_of d)) ids

-- `node_ids` and `node_columns`, which four requests share.
pub record NodeColumns : Type 0 where
  pub node_ids : List ℕ
  pub node_columns : Dict Text

-- The fields' constraints and `_validate_node_columns`.
unfoldable pub are_valid_node_columns : NodeColumns → Bool
are_valid_node_columns n =
    leb 1 (length n.node_ids)
    && leb (length n.node_ids) 2
    && is_distinct n.node_ids
    && has_exactly n.node_columns n.node_ids
    && all (λ e. leb 1 (length e.1)) n.node_columns

abbrev pub are_distinct_texts : List Text → Bool
are_distinct_texts [] = true
are_distinct_texts (t ∷ ts) = not (text_in t ts) && are_distinct_texts ts

pub record DataBlockCreationSource : Type 0 where
  pub source_node_id : ℕ
  pub selected_columns : List Text
  pub new_node_name : Text

unfoldable pub is_valid_source : DataBlockCreationSource → Bool
is_valid_source s =
    leb 1 (length s.selected_columns)
    && all (λ c. leb 1 (length c)) s.selected_columns
    && is_text_of 500 s.new_node_name
    && are_distinct_texts s.selected_columns

-- Indexes below 0 are refused by the validator; the model's are naturals.
pub record DocumentSource : Type 0 where
  pub source_node_id : ℕ
  pub selected_metadata_columns : List Text
  pub new_node_name : Text
  pub excluded_matched_texts : List Text
  pub bin_count : Option ℕ
  pub selected_bins : Option (List ℕ)

-- Both or neither, and each bin once and in range.
abbrev pub are_valid_bins : Option ℕ → Option (List ℕ) → Bool
are_valid_bins none none = true
are_valid_bins (some count) (some bins) =
    elem count (4 ∷ 5 ∷ 10 ∷ 20 ∷ 25 ∷ 50 ∷ 100 ∷ [])
    && leb 1 (length bins)
    && leb (length bins) 100
    && is_distinct bins
    && all (λ i. ltb i count) bins
are_valid_bins _ _ = false

unfoldable pub is_valid_document_source : DocumentSource → Bool
is_valid_document_source s =
    is_text_of 500 s.new_node_name
    && all (λ c. leb 1 (length c)) s.selected_metadata_columns
    && all (λ c. leb 1 (length c)) s.excluded_matched_texts
    && are_distinct_texts s.selected_metadata_columns
    && are_distinct_texts s.excluded_matched_texts
    && are_valid_bins s.bin_count s.selected_bins

pub record TopicMeaningOverride : Type 0 where
  pub topic_id : ℕ
  pub words : List Text

pub record TopicDataBlocks : Type 0 where
  pub node_ids : List ℕ
  pub selected_columns : Dict (List Text)
  pub new_node_names : Dict Text
  pub topic_ids : Option (List ℕ)
  pub topic_meanings_override : List TopicMeaningOverride

-- `validate_sources_and_topics`, with the fields' constraints.
unfoldable pub are_valid_topic_data_blocks : TopicDataBlocks → Bool
are_valid_topic_data_blocks r =
    leb 1 (length r.node_ids)
    && leb (length r.node_ids) 2
    && is_distinct r.node_ids
    && has_exactly r.selected_columns r.node_ids
    && has_exactly r.new_node_names r.node_ids
    && all (λ e. all (λ c. leb 1 (length c)) e.1) r.selected_columns
    && all (λ e. is_text_of 475 e.1) r.new_node_names
    && all_option is_distinct r.topic_ids
    && all (λ o. all (λ w. leb 1 (length w)) o.words) r.topic_meanings_override
    && is_distinct (map (λ o. o.topic_id) r.topic_meanings_override)
