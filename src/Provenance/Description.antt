-- ===== src/Provenance/Description.antt =====
-- `describe_provenance` of domain/workspace/provenance.py. The name of a Data Block and the text of its
-- id are what the caller and the language give.
use ldaca_wordflow_backend.Base.{
  ℕ, Option, none, some, List, [], ◌∷◌, ◌++◌, if◌then◌else◌, is_empty,
}
use ldaca_wordflow_backend.Derivation
use ldaca_wordflow_backend.Derivation.{
  DerivationOperation, SliceMode, ReplaceMode, ExpressionContext, JoinHow, slice, random_sample,
  shuffle, replace, extract, filter_rows, with_columns, select_columns, sort_rows, group_by_agg,
  inner, left_join, right_join, full, semi, anti, cross,
}
use ldaca_wordflow_backend.Text.{Text, codes}
use ldaca_wordflow_backend.Provenance.{Provenance, source, node, derivation, Inputs, end, input}

abbrev how_text : JoinHow → Text
how_text inner = codes "inner"
how_text left_join = codes "left"
how_text right_join = codes "right"
how_text full = codes "full"
how_text semi = codes "semi"
how_text anti = codes "anti"
how_text cross = codes "cross"

abbrev slice_text : SliceMode → Text
slice_text slice = codes "slice"
slice_text random_sample = codes "random_sample"
slice_text shuffle = codes "shuffle"

abbrev replace_label : ReplaceMode → Text
replace_label replace = codes "replace"
replace_label extract = codes "extract"

abbrev context_text : ExpressionContext → Text
context_text filter_rows = codes "filter"
context_text with_columns = codes "with_columns"
context_text select_columns = codes "select"
context_text sort_rows = codes "sort"
context_text group_by_agg = codes "group_by_agg"

-- `", ".join(inputs)`
abbrev commas : List Text → Text
commas [] = []
commas (t ∷ []) = t
commas (t ∷ u ∷ us) = t ++ codes ", " ++ commas (u ∷ us)

-- `inputs[0]` and `inputs[1]`; validation leaves no operation without the inputs that it reads.
abbrev first : List Text → Text
first [] = []
first (t ∷ ts) = t

abbrev second : List Text → Text
second [] = []
second (t ∷ ts) = first ts

-- The entry of `labels`, for the operations that the branches above it leave.
abbrev label : DerivationOperation → Text
label Derivation.clone = codes "clone"
label (Derivation.slice_rows mode offset row_count sample_size random_seed) = slice_text mode
label (Derivation.filter conditions logic) = codes "filter"
label (Derivation.replace_text s p r o mode f l c) = replace_label mode
label (Derivation.expression context expressions group_by) = context_text context
label (Derivation.cast_column column target format strict) = codes "cast"
label (Derivation.annotation column provider model) = codes "annotation"
label Derivation.concordance_match = codes "concordance Match Data Block Creation"
label Derivation.concordance_document = codes "concordance Document Data Block Creation"
label Derivation.quotation_result = codes "quotation Data Block Creation"
label (Derivation.topic_modeling role) = codes "topic modeling Data Block Creation"
label (Derivation.concat deduplicate) = []
label (Derivation.join l r how) = []
label (Derivation.sql query) = []

unfoldable pub describe_operation : DerivationOperation → List Text → Text
describe_operation (Derivation.join l r how) inputs =
    how_text how ++ codes " join of " ++ first inputs ++ codes " and " ++ second inputs
describe_operation (Derivation.concat deduplicate) inputs =
    (if deduplicate then codes "deduplicated concatenation" else codes "concatenation")
    ++ codes " of "
    ++ commas inputs
describe_operation (Derivation.sql query) inputs = codes "SQL query of " ++ commas inputs
describe_operation operation inputs = label operation ++ codes " of " ++ first inputs

-- `resolve_name(node_id) or node_id`
abbrev name_or : Text → Option Text → Text
name_or id_text none = id_text
name_or id_text (some name) = if is_empty name then id_text else name

module _ (id_text : ℕ → Text) where
  abbrev pub node_name : (ℕ → Option Text) → ℕ → Text
  node_name resolve n = name_or (id_text n) (resolve n)

  unfoldable mutual
    pub describe_provenance : (ℕ → Option Text) → Provenance → Text
    describe_provenance resolve source = codes "source snapshot"
    describe_provenance resolve (node n) = node_name resolve n
    describe_provenance resolve (derivation operation inputs) =
        describe_operation operation (describe_inputs resolve inputs)

    pub describe_inputs : (ℕ → Option Text) → Inputs → List Text
    describe_inputs resolve end = []
    describe_inputs resolve (input role value inputs) =
        describe_provenance resolve value ∷ describe_inputs resolve inputs
