-- ===== src/AnalysisRequest/Tests.antt =====
-- The theorems on the requests of analysis.py at concrete requests.
use ldaca_wordflow_backend.Base.{◌≡◌, refl, false, none, some, [], ◌∷◌}
use ldaca_wordflow_backend.Text.{codes, text_in}
use ldaca_wordflow_backend.Derivation.{openai}
use ldaca_wordflow_backend.AnalysisRequest.Sources.{is_valid_source}
use ldaca_wordflow_backend.AnalysisRequest.Annotation.{AnnotationRequest, random, medium}
use ldaca_wordflow_backend.AnalysisRequest.{
  AnalysisRequest, concordance_matches, annotation, is_valid_request, analysis_input_ids,
  analysis_snapshot_input_ids,
}
use ldaca_wordflow_backend.AnalysisRequest.Inputs.{AreInputs, analysis_input_ids-AreInputs}

abbrev two_matches : AnalysisRequest
two_matches = concordance_matches (
    (record {
      source_node_id = 4;
      selected_columns = codes "text" ∷ [];
      new_node_name = codes "first";
    })
    ∷ (record {
      source_node_id = 7;
      selected_columns = codes "title" ∷ [];
      new_node_name = codes "second";
    })
    ∷ [])

analysis_input_ids-AreInputs_example : AreInputs (analysis_input_ids two_matches)
unfolding is_valid_request is_valid_source text_in
analysis_input_ids-AreInputs_example = analysis_input_ids-AreInputs (λ t. t) two_matches refl

-- The examples stand in the Data Block that is annotated.
abbrev annotated : AnnotationRequest
annotated = record {
  provider_configuration_id = 1;
  provider = openai;
  provider_base_url = none;
  node_id = 4;
  text_column = codes "text";
  annotation_column = codes "label";
  correction_column = none;
  class_node_id = 5;
  class_column = codes "class";
  description_column = codes "about";
  example_node_id = some 4;
  example_text_column = some (codes "text");
  example_annotation_column = some (codes "label");
  max_examples_per_class = 3;
  example_sampling_method = random;
  example_random_seed = 42;
  classes = (record { name = codes "yes"; description = codes "" }) ∷ [];
  model = codes "m";
  instruction = codes "classify";
  temperature = 0;
  max_retries_per_batch = 2;
  reasoning_enabled = false;
  reasoning_effort = medium;
}

annotated_snapshot : analysis_snapshot_input_ids (annotation annotated) ≡ 4 ∷ []
unfolding analysis_snapshot_input_ids
annotated_snapshot = refl
