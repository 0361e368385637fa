-- ===== src/WorkspaceAnalyses.antt =====
-- src/ldaca_wordflow/domain/workspace/graph.py and tab.py: the Tabs of a Workspace and the Analyses that
-- they own. An identifier is a number, and so canonical; the bytes of a corrupt record are opaque. The
-- loop of `analysis_descendants` has as fuel a power of two of the number of Analyses; a method that
-- runs out of it gives `none`. Whether two requests are equal is a parameter. A name is given as
-- trimming leaves it.
pub mod Forest
pub mod History
pub mod Changes
pub mod Descent
pub mod Tabs
pub mod Removal
mod Tests
use ldaca_wordflow_backend.Base.{
  ℕ, zero, suc, ◌+◌, Bool, true, false, not, ◌&&◌, ◌||◌, Option, none, some, List, [], ◌∷◌, ◌++◌,
  map, any, all, elem, is_distinct, is_empty, is_some, length, ◌==◌, leb, eq_option, if◌then◌else◌,
  Dict, lookup, contains, insert, erase, without,
}
use ldaca_wordflow_backend.Text.{Text}
use ldaca_wordflow_backend.Background.{all_option, is_control, is_terminal}
use ldaca_wordflow_backend.AnalysisRequest.{AnalysisRequest, analysis_input_ids}
use ldaca_wordflow_backend.AnalysisRequest.Sources.{is_text_of}
use ldaca_wordflow_backend.AnalysisRecord.Checks.{AnalysisRecord}

pub data AnalysisKind : Type 0 where
  annotations concordances quotations sequences token_frequencies topic_models : AnalysisKind

pub record Tab : Type 0 where
  pub id : ℕ
  pub kind : AnalysisKind
  pub name : Text
  pub analysis_ids : List ℕ
  pub annotation_correction_columns : Dict Text
  pub stop_words : List Text
  pub topic_modeling_words_per_topic : Option ℕ
  pub created_at : ℕ
  pub modified_at : ℕ
  pub revision : ℕ

abbrev pub is_topic_model : AnalysisKind → Bool
is_topic_model topic_models = true
is_topic_model _ = false

abbrev pub has_stop_words : AnalysisKind → Bool
has_stop_words token_frequencies = true
has_stop_words topic_models = true
has_stop_words _ = false

abbrev pub is_tab_name : Text → Bool
is_tab_name t = is_text_of 500 t && not (any is_control t)

-- The fields' constraints and `validate_presentation_settings`.
unfoldable pub is_valid_tab : Tab → Bool
is_valid_tab t =
    is_tab_name t.name
    && all (λ e. is_tab_name e.1) t.annotation_correction_columns
    && all_option (λ n. leb 3 n && leb n 100) t.topic_modeling_words_per_topic
    && leb 1 t.revision
    && (is_empty t.stop_words || has_stop_words t.kind)
    && (if is_topic_model t.kind
        then is_some t.topic_modeling_words_per_topic
        else not (is_some t.topic_modeling_words_per_topic))

-- `Tab.create`, which validates the Tab that it makes.
unfoldable pub create_tab : (id : ℕ) → AnalysisKind → Text → ℕ → Option Tab
create_tab id kind name timestamp =
    let tab : Tab = record {
      id = id;
      kind = kind;
      name = name;
      analysis_ids = [];
      annotation_correction_columns = [];
      stop_words = [];
      topic_modeling_words_per_topic = if is_topic_model kind then some 15 else none;
      created_at = timestamp;
      modified_at = timestamp;
      revision = 1;
    } in
    if is_valid_tab tab then some tab else none

-- The part of a `Workspace` that holds Tabs and Analyses.
pub record Analyses : Type 0 where
  pub tabs : Dict Tab
  pub analyses : Dict AnalysisRecord
  pub corrupt : Dict ℕ

pub data AnalysesError : Type 0 where
  tab_exists repeated_analysis claimed_twice analysis_exists no_parent no_tab : AnalysesError
  no_analysis other_owner other_request : AnalysesError

abbrev pub new_analyses : Analyses
new_analyses = record { tabs = []; analyses = []; corrupt = [] }

-- A method raises or not, and leaves a state either way.
abbrev pub Outcome : Type 0
Outcome = Option AnalysesError × Analyses

unfoldable pub add_tab : Tab → Analyses → Outcome
add_tab tab w =
    if contains tab.id w.tabs
    then (some tab_exists, w)
    else if not (is_distinct tab.analysis_ids)
    then (some repeated_analysis, w)
    else if any (λ e. any (λ i. elem i tab.analysis_ids) e.1.analysis_ids) w.tabs
    then (some claimed_twice, w)
    else (none, record w { tabs = insert tab.id tab w.tabs })

unfoldable pub remove_tab : ℕ → Analyses → Analyses
remove_tab tab_id w = record w { tabs = erase tab_id w.tabs }

abbrev pub exists_analysis : ℕ → Analyses → Bool
exists_analysis id w = contains id w.analyses || contains id w.corrupt

-- A parent is registered, and in the same Tab.
abbrev pub has_parent : AnalysisRecord → Dict AnalysisRecord → Bool
has_parent a d = elim a.lifecycle.parent_analysis_id [
  | none ↦ true
  | some p ↦ elim (lookup p d) [
    | none ↦ false
    | some parent ↦ parent.lifecycle.tab_id == a.lifecycle.tab_id
  ]
]

abbrev pub linked : ℕ → Tab → Tab
linked id t = record t {
  analysis_ids = if elem id t.analysis_ids then t.analysis_ids else t.analysis_ids ++ (id ∷ []);
}

-- The end of `add_analysis`, with the Tab that it found.
abbrev pub link_found : AnalysisRecord → Analyses → Option Tab → Outcome
link_found a w none = (some no_tab, record w { analyses = insert a.lifecycle.id a w.analyses })
link_found a w (some tab) = (
  none,
  record w {
    analyses = insert a.lifecycle.id a w.analyses;
    tabs = insert a.lifecycle.tab_id (linked a.lifecycle.id tab) w.tabs;
  },
)

-- `add_analysis` stores the record before it looks for the Tab.
unfoldable pub add_analysis : AnalysisRecord → (link_to_tab : Bool) → Analyses → Outcome
add_analysis a link_to_tab w =
    if exists_analysis a.lifecycle.id w
    then (some analysis_exists, w)
    else if not (has_parent a w.analyses)
    then (some no_parent, w)
    else if not link_to_tab
    then (none, record w { analyses = insert a.lifecycle.id a w.analyses })
    else link_found a w (lookup a.lifecycle.tab_id w.tabs)

unfoldable pub add_corrupt_analysis : (id content : ℕ) → Analyses → Outcome
add_corrupt_analysis id content w =
    if exists_analysis id w
    then (some analysis_exists, w)
    else (none, record w { corrupt = insert id content w.corrupt })

-- `list.remove`: the first occurrence.
abbrev pub remove_first : ℕ → List ℕ → List ℕ
remove_first k [] = []
remove_first k (x ∷ xs) = let rest = remove_first k xs in if x == k then xs else x ∷ rest

unfoldable pub unlink_analysis_id : ℕ → Dict Tab → Dict Tab
unlink_analysis_id id [] = []
unlink_analysis_id id ((k, t) ∷ d) =
    (k, record t { analysis_ids = remove_first id t.analysis_ids }) ∷ unlink_analysis_id id d

abbrev pub is_child_of : ℕ → AnalysisRecord → Bool
is_child_of id a = eq_option a.lifecycle.parent_analysis_id (some id)

unfoldable pub analysis_children : ℕ → Dict AnalysisRecord → List AnalysisRecord
analysis_children id [] = []
analysis_children id (e ∷ d) =
    let rest = analysis_children id d in if is_child_of id e.1 then e.1 ∷ rest else rest

-- The loop of `analysis_descendants` over what is pending.
unfoldable pub descend :
    (fuel : ℕ) → Dict AnalysisRecord → List AnalysisRecord → Option (List AnalysisRecord)
descend fuel d [] = some []
descend zero d (child ∷ pending) = none
descend (suc fuel) d (child ∷ pending) =
    elim (descend fuel d (analysis_children child.lifecycle.id d ++ pending)) [
      | none ↦ none
      | some descendants ↦ some (child ∷ descendants)
    ]

unfoldable pub double_each : ℕ → ℕ
double_each zero = 1
double_each (suc n) = double_each n + double_each n

unfoldable pub analysis_descendants : ℕ → Dict AnalysisRecord → Option (List AnalysisRecord)
analysis_descendants id d = descend (double_each (length d)) d (analysis_children id d)

-- The last of the list first.
unfoldable pub erase_each : List ℕ → Dict AnalysisRecord → Dict AnalysisRecord
erase_each [] d = d
erase_each (k ∷ ks) d = erase k (erase_each ks d)

unfoldable pub unlink_each : List ℕ → Dict Tab → Dict Tab
unlink_each [] d = d
unlink_each (k ∷ ks) d = unlink_analysis_id k (unlink_each ks d)

-- What `remove_analysis` leaves without an Analysis and its descendants.
abbrev pub removed : ℕ → Analyses → List AnalysisRecord → Analyses
removed id w descendants =
    let ids = id ∷ map (λ r. r.lifecycle.id) descendants in
    record w { analyses = erase_each ids w.analyses; tabs = unlink_each ids w.tabs }

abbrev pub remove_corrupt : ℕ → Analyses → Analyses
remove_corrupt id w =
    if contains id w.corrupt
    then record w { corrupt = erase id w.corrupt; tabs = unlink_analysis_id id w.tabs }
    else w

unfoldable pub remove_analysis : ℕ → Analyses → Option Analyses
remove_analysis id w =
    if not (contains id w.analyses)
    then some (remove_corrupt id w)
    else elim (analysis_descendants id w.analyses) [
      | none ↦ none
      | some descendants ↦ some (removed id w descendants)
    ]

module _ (same_request : AnalysisRequest → AnalysisRequest → Bool) where
  -- `replace_analysis`, with the record that it found.
  abbrev pub replace_found : AnalysisRecord → Analyses → Option AnalysisRecord → Outcome
  replace_found a w none = (some no_analysis, w)
  replace_found a w (some previous) =
      if not (eq_option previous.lifecycle.parent_analysis_id a.lifecycle.parent_analysis_id)
      then (some other_owner, w)
      else if not (same_request previous.lifecycle.request a.lifecycle.request)
      then (some other_request, w)
      else (none, record w { analyses = insert a.lifecycle.id a w.analyses })

  unfoldable pub replace_analysis : AnalysisRecord → Analyses → Outcome
  replace_analysis a w = replace_found a w (lookup a.lifecycle.id w.analyses)

-- `live_analysis_ids`
unfoldable pub live_analysis_ids : Dict Tab → List ℕ
live_analysis_ids [] = []
live_analysis_ids (e ∷ d) = e.1.analysis_ids ++ live_analysis_ids d

unfoldable pub analysis_tab_id : ℕ → Dict Tab → Option ℕ
analysis_tab_id id [] = none
analysis_tab_id id (e ∷ d) =
    let rest = analysis_tab_id id d in if elem id e.1.analysis_ids then some e.0 else rest

-- `reserved_node_ids`: what Analyses that have not ended read.
unfoldable pub reserved_node_ids : Dict AnalysisRecord → List ℕ
reserved_node_ids [] = []
reserved_node_ids (e ∷ d) =
    let rest = reserved_node_ids d in
    if is_terminal e.1.lifecycle.state
    then rest
    else analysis_input_ids e.1.lifecycle.request ++ rest
