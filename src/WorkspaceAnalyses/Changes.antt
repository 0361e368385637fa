-- ===== src/WorkspaceAnalyses/Changes.antt =====
-- The changes of graph.py to its Analyses keep a forest.
use ldaca_wordflow_backend.Base.{
  ℕ, ◌≡◌, refl, sym, ap, ◌∙◌, subst, arith, Bool, true, false, not, ◌&&◌, ◌||◌, Bool-cases, Option,
  none, some, inl, inr, List, [], ◌∷◌, elem, ==_refl, ==_iff, split_if, eq_option, if◌then◌else◌,
  Dict, lookup, contains, insert, erase,
}
use ldaca_wordflow_backend.AnalysisRecord.Checks.{AnalysisRecord}
use ldaca_wordflow_backend.WorkspaceAnalyses.{analysis_children, erase_each}
use ldaca_wordflow_backend.WorkspaceAnalyses.Forest.{has_parent_in, IsForest, AreIn, keys, key-seen}

pub contains-keys : (k : ℕ) (d : Dict AnalysisRecord) → contains k d ≡ elem k (keys d)
contains-keys k [] = refl
contains-keys k (e ∷ d) = ground (arith, contains-keys k d)

-- The parent of a record stands in one of two lists.
abbrev pub has_parent_in_either : List ℕ → List ℕ → AnalysisRecord → Bool
has_parent_in_either seen ids a = elim a.lifecycle.parent_analysis_id [
  | none ↦ true
  | some p ↦ elem p seen || elem p ids
]

pub insert_new-IsForest :
    (a : AnalysisRecord) (seen : List ℕ) (d : Dict AnalysisRecord)
    → IsForest seen d
    → elem a.lifecycle.id seen ≡ false
    → elem a.lifecycle.id (keys d) ≡ false
    → has_parent_in_either seen (keys d) a ≡ true
    → IsForest seen (insert a.lifecycle.id a d)
insert_new-IsForest a seen [] f s n p = ground arith
insert_new-IsForest a seen (e ∷ d) f s n p =
    ground (arith, insert_new-IsForest a (e.0 ∷ seen) d f.3)

pub insert_old-IsForest :
    (a previous : AnalysisRecord) (seen : List ℕ) (d : Dict AnalysisRecord)
    → IsForest seen d
    → lookup a.lifecycle.id d ≡ some previous
    → eq_option previous.lifecycle.parent_analysis_id a.lifecycle.parent_analysis_id ≡ true
    → IsForest seen (insert a.lifecycle.id a d)
insert_old-IsForest a previous seen [] f l p = ground arith
insert_old-IsForest a previous seen (e ∷ d) f l p =
    ground (arith, insert_old-IsForest a previous (e.0 ∷ seen) d f.3)

-- `d` without some keys.
abbrev pub drop_keys : List ℕ → Dict AnalysisRecord → Dict AnalysisRecord
drop_keys ids [] = []
drop_keys ids (e ∷ d) = let rest = drop_keys ids d in if elem e.0 ids then rest else e ∷ rest

pub contains-drop_keys :
    (k : ℕ) (ids : List ℕ) (d : Dict AnalysisRecord)
    → contains k (drop_keys ids d) ≡ (contains k d && not (elem k ids))
contains-drop_keys k ids [] = refl
contains-drop_keys k ids (e ∷ d) = ground (arith, contains-drop_keys k ids d, ==_iff e.0 k)

drop_absent :
    (k : ℕ) (ids : List ℕ) (d : Dict AnalysisRecord)
    → elem k (keys d) ≡ false
    → drop_keys (k ∷ ids) d ≡ drop_keys ids d
drop_absent k ids [] h = refl
drop_absent k ids (e ∷ d) h = ground (arith, drop_absent k ids d)

drop_none : (d : Dict AnalysisRecord) → drop_keys [] d ≡ d
drop_none [] = refl
drop_none (e ∷ d) = ground (arith, drop_none d)

erase-drop_keys :
    (k : ℕ) (ids seen : List ℕ) (d : Dict AnalysisRecord)
    → IsForest seen d
    → erase k (drop_keys ids d) ≡ drop_keys (k ∷ ids) d
erase-drop_keys k ids seen [] f = refl
erase-drop_keys k ids seen (e ∷ d) f = ground (
  arith,
  erase-drop_keys k ids (e.0 ∷ seen) d f.3,
  drop_absent k ids d,
  key-seen k (e.0 ∷ seen) d f.3,
)

pub erase_each-drop_keys :
    (ids : List ℕ) (d : Dict AnalysisRecord) → IsForest [] d → erase_each ids d ≡ drop_keys ids d
unfolding erase_each
erase_each-drop_keys [] d f = sym (drop_none d)
erase_each-drop_keys (k ∷ ks) d f =
    ap (erase k) (erase_each-drop_keys ks d f) ∙ erase-drop_keys k ks [] d f

-- With each of its ids a list has those of the children.
abbrev pub IsClosed : List ℕ → Dict AnalysisRecord → Type 0
IsClosed ids d = (k : ℕ) → elem k ids ≡ true → AreIn ids (analysis_children k d)

IsClosed-rest :
    (ids : List ℕ) (e : ℕ × AnalysisRecord) (d : Dict AnalysisRecord)
    → IsClosed ids (e ∷ d)
    → IsClosed ids d
unfolding analysis_children
IsClosed-rest ids e d c k h = ground (arith, c k h)

-- What stays of a forest without a closed list of keys has its parent above it still.
kept-has_parent_in :
    (ids seen kept : List ℕ) (e : ℕ × AnalysisRecord) (d : Dict AnalysisRecord) (parent : Option ℕ)
    → e.1.lifecycle.parent_analysis_id ≡ parent
    → e.0 ≡ e.1.lifecycle.id
    → elem e.0 ids ≡ false
    → has_parent_in seen e.1 ≡ true
    → ((k : ℕ) → elem k ids ≡ false → elem k kept ≡ elem k seen)
    → IsClosed ids (e ∷ d)
    → has_parent_in kept e.1 ≡ true
unfolding analysis_children
kept-has_parent_in ids seen kept e d none q s n p same c = ground arith
kept-has_parent_in ids seen kept e d (some k) q s n p same c = elim (Bool-cases (elem k ids)) [
  | inl y ↦ ground (arith, c k y, ==_refl k)
  | inr m ↦ ground (arith, same k m)
]

drop_keys-IsForest :
    (ids seen kept : List ℕ) (d : Dict AnalysisRecord)
    → IsForest seen d
    → ((k : ℕ) → elem k ids ≡ false → elem k kept ≡ elem k seen)
    → IsClosed ids d
    → IsForest kept (drop_keys ids d)
drop_keys-IsForest ids seen kept [] f same c = tt
drop_keys-IsForest ids seen kept (e ∷ d) f same c =
    let rest = IsClosed-rest ids e d c in
    split_if (IsForest kept) (elem e.0 ids)
      (λ y. drop_keys-IsForest ids (e.0 ∷ seen) kept d f.3 (λ k m. ground (arith, same k m)) rest)
      (λ n. (
        f.0,
        same e.0 n ∙ f.1,
        kept-has_parent_in ids seen kept e d e.1.lifecycle.parent_analysis_id refl f.0 n f.2 same c,
        drop_keys-IsForest ids (e.0 ∷ seen) (e.0 ∷ kept) d f.3 (λ k m. ground (arith, same k m))
            rest,
      ))

pub erase_each-IsForest :
    (ids : List ℕ) (d : Dict AnalysisRecord)
    → IsForest [] d
    → IsClosed ids d
    → IsForest [] (erase_each ids d)
erase_each-IsForest ids d f c =
    subst (IsForest []) (sym (erase_each-drop_keys ids d f))
      (drop_keys-IsForest ids [] [] d f (λ k m. refl) c)
