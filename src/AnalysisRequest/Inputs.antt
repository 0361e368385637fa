-- ===== src/AnalysisRequest/Inputs.antt =====
-- The Data Blocks that a request of analysis.py reads.
use ldaca_wordflow_backend.Base.{
  ℕ, ◌≤◌, ◌≡◌, refl, true, not, ◌&&◌, Option, none, some, List, [], ◌∷◌, arith, map, elem,
  IsDistinct, is_distinct-IsDistinct, length, ==_refl,
}
use ldaca_wordflow_backend.Text.{Text}
use ldaca_wordflow_backend.AnalysisRequest.Sources.{
  are_valid_node_columns, NodeColumns, are_valid_topic_data_blocks,
}
use ldaca_wordflow_backend.AnalysisRequest.{
  AnalysisRequest, token_frequency, topic_modeling, concordance, quotation, sequential, annotation,
  concordance_run_all, quotation_run_all, annotation_run_all, concordance_matches,
  concordance_documents, quotation_result, topic_data_blocks, is_valid_token_frequency,
  is_valid_topic_modeling, is_valid_concordance, is_valid_request, first_of_each, optional_id,
  analysis_input_ids, analysis_snapshot_input_ids,
}

elem-first_of_each :
    (k : ℕ) (seen xs : List ℕ) → elem k (first_of_each seen xs) ≡ (elem k xs && not (elem k seen))
elem-first_of_each k seen [] = refl
elem-first_of_each k seen (x ∷ xs) =
    ground (arith, elem-first_of_each k (x ∷ seen) xs, elem-first_of_each k seen xs)

first_of_each-IsDistinct : (seen xs : List ℕ) → IsDistinct (first_of_each seen xs)
first_of_each-IsDistinct seen [] = tt
first_of_each-IsDistinct seen (x ∷ xs) = ground (
  arith,
  first_of_each-IsDistinct (x ∷ seen) xs,
  first_of_each-IsDistinct seen xs,
  elem-first_of_each x (x ∷ seen) xs,
  ==_refl x,
)

-- Data Blocks that a request reserves: some, each once, three at most.
pub record AreInputs (ids : List ℕ) : Type 0 where
  pub some_input : 1 ≤ length ids
  pub few : length ids ≤ 3
  pub distinct : IsDistinct ids

node_columns-AreInputs : (n : NodeColumns) → are_valid_node_columns n ≡ true → AreInputs n.node_ids
unfolding are_valid_node_columns
node_columns-AreInputs n v = record {
  some_input = ground arith;
  few = ground arith;
  distinct = is_distinct-IsDistinct n.node_ids (ground arith);
}

annotation-AreInputs :
    (node classes : ℕ) (example : Option ℕ)
    → AreInputs (first_of_each [] (node ∷ classes ∷ optional_id example))
annotation-AreInputs node classes none = record {
  some_input = ground arith;
  few = ground arith;
  distinct = first_of_each-IsDistinct [] (node ∷ classes ∷ []);
}
annotation-AreInputs node classes (some e) = record {
  some_input = ground arith;
  few = ground arith;
  distinct = first_of_each-IsDistinct [] (node ∷ classes ∷ e ∷ []);
}

one-AreInputs : (id : ℕ) → AreInputs (id ∷ [])
one-AreInputs id = record { some_input = omega arith; few = omega arith; distinct = (refl, tt) }

-- A valid request reads at least one Data Block and at most three, and names none twice.
pub analysis_input_ids-AreInputs :
    (casefold : Text → Text) (r : AnalysisRequest)
    → is_valid_request casefold r ≡ true
    → AreInputs (analysis_input_ids r)
unfolding is_valid_request analysis_input_ids is_valid_token_frequency is_valid_topic_modeling
    is_valid_concordance are_valid_topic_data_blocks
analysis_input_ids-AreInputs casefold (token_frequency r) v =
    node_columns-AreInputs r.nodes (ground arith)
analysis_input_ids-AreInputs casefold (topic_modeling r) v =
    node_columns-AreInputs r.nodes (ground arith)
analysis_input_ids-AreInputs casefold (concordance r) v =
    node_columns-AreInputs r.nodes (ground arith)
analysis_input_ids-AreInputs casefold (quotation r) v = one-AreInputs r.node_id
analysis_input_ids-AreInputs casefold (sequential r) v = one-AreInputs r.node_id
analysis_input_ids-AreInputs casefold (annotation r) v =
    annotation-AreInputs r.node_id r.class_node_id r.example_node_id
analysis_input_ids-AreInputs casefold (concordance_run_all r) v =
    node_columns-AreInputs r.nodes (ground arith)
analysis_input_ids-AreInputs casefold (quotation_run_all r) v = one-AreInputs r.node_id
analysis_input_ids-AreInputs casefold (annotation_run_all r n mode) v =
    annotation-AreInputs r.node_id r.class_node_id r.example_node_id
analysis_input_ids-AreInputs casefold (concordance_matches sources) v =
    let ids = map (λ s. s.source_node_id) sources in
    record {
      some_input = ground arith;
      few = ground arith;
      distinct = is_distinct-IsDistinct ids (ground arith);
    }
analysis_input_ids-AreInputs casefold (concordance_documents sources) v =
    let ids = map (λ s. s.source_node_id) sources in
    record {
      some_input = ground arith;
      few = ground arith;
      distinct = is_distinct-IsDistinct ids (ground arith);
    }
analysis_input_ids-AreInputs casefold (quotation_result s) v = one-AreInputs s.source_node_id
analysis_input_ids-AreInputs casefold (topic_data_blocks r) v = record {
  some_input = ground arith;
  few = ground arith;
  distinct = is_distinct-IsDistinct r.node_ids (ground arith);
}

annotation_snapshot_elem :
    (k node classes : ℕ) (example : Option ℕ)
    → elem k (first_of_each [] (node ∷ optional_id example)) ≡ true
    → elem k (first_of_each [] (node ∷ classes ∷ optional_id example)) ≡ true
annotation_snapshot_elem k node classes example e = ground (
  arith,
  elem-first_of_each k [] (node ∷ optional_id example),
  elem-first_of_each k [] (node ∷ classes ∷ optional_id example),
)

-- Every Data Block whose plan is snapshotted for a request is one of those that it reserves.
pub snapshot-elem-inputs :
    (r : AnalysisRequest) (k : ℕ)
    → elem k (analysis_snapshot_input_ids r) ≡ true
    → elem k (analysis_input_ids r) ≡ true
unfolding analysis_snapshot_input_ids analysis_input_ids
snapshot-elem-inputs (token_frequency r) k e = e
snapshot-elem-inputs (topic_modeling r) k e = e
snapshot-elem-inputs (concordance r) k e = e
snapshot-elem-inputs (quotation r) k e = e
snapshot-elem-inputs (sequential r) k e = e
snapshot-elem-inputs (annotation r) k e =
    annotation_snapshot_elem k r.node_id r.class_node_id r.example_node_id e
snapshot-elem-inputs (concordance_run_all r) k e = e
snapshot-elem-inputs (quotation_run_all r) k e = e
snapshot-elem-inputs (annotation_run_all r n mode) k e =
    annotation_snapshot_elem k r.node_id r.class_node_id r.example_node_id e
snapshot-elem-inputs (concordance_matches sources) k e = e
snapshot-elem-inputs (concordance_documents sources) k e = e
snapshot-elem-inputs (quotation_result s) k e = e
snapshot-elem-inputs (topic_data_blocks r) k e = e
