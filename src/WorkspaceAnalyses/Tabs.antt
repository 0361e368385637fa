-- ===== src/WorkspaceAnalyses/Tabs.antt =====
-- The lists of Analyses in the Tabs of graph.py.
use ldaca_wordflow_backend.Base.{
  ℕ, ◌≡◌, refl, arith, true, false, Bool-cases, some, inl, inr, List, [], ◌∷◌, elem, elem-append,
  IsDistinct, IsDistinct-snoc, ◌==◌, ==_iff, All, Dict, lookup, insert, erase,
}
use ldaca_wordflow_backend.WorkspaceAnalyses.{
  Tab, linked, remove_first, unlink_analysis_id, unlink_each, live_analysis_ids,
}

abbrev pub HasDistinctIds : ℕ × Tab → Type 0
HasDistinctIds e = IsDistinct e.1.analysis_ids

pub insert-All :
    (k : ℕ) (t : Tab) (d : Dict Tab)
    → IsDistinct t.analysis_ids
    → All HasDistinctIds d
    → All HasDistinctIds (insert k t d)
insert-All k t [] h a = (h, tt)
insert-All k t (e ∷ d) h a = ground (arith, insert-All k t d h a.1)

pub erase-All : (k : ℕ) (d : Dict Tab) → All HasDistinctIds d → All HasDistinctIds (erase k d)
erase-All k [] a = tt
erase-All k (e ∷ d) a = ground (arith, erase-All k d a.1)

pub lookup-All :
    (k : ℕ) (d : Dict Tab) (t : Tab)
    → All HasDistinctIds d
    → lookup k d ≡ some t
    → IsDistinct t.analysis_ids
lookup-All k [] t a l = ground arith
lookup-All k (e ∷ d) t a l = ground (arith, lookup-All k d t a.1)

elem-remove_first : (k j : ℕ) (xs : List ℕ) → elem j xs ≡ false → elem j (remove_first k xs) ≡ false
elem-remove_first k j [] h = refl
elem-remove_first k j (x ∷ xs) h = ground (arith, elem-remove_first k j xs)

remove_first-IsDistinct : (k : ℕ) (xs : List ℕ) → IsDistinct xs → IsDistinct (remove_first k xs)
remove_first-IsDistinct k [] h = tt
remove_first-IsDistinct k (x ∷ xs) h =
    ground (arith, remove_first-IsDistinct k xs h.1, elem-remove_first k x xs)

-- A number listed once is gone with its first occurrence.
pub remove_first_gone : (k : ℕ) (xs : List ℕ) → IsDistinct xs → elem k (remove_first k xs) ≡ false
remove_first_gone k [] h = refl
remove_first_gone k (x ∷ xs) h = ground (arith, remove_first_gone k xs h.1, ==_iff x k)

pub unlink_analysis_id-All :
    (k : ℕ) (d : Dict Tab) → All HasDistinctIds d → All HasDistinctIds (unlink_analysis_id k d)
unfolding unlink_analysis_id
unlink_analysis_id-All k [] a = tt
unlink_analysis_id-All k (e ∷ d) a =
    (remove_first-IsDistinct k e.1.analysis_ids a.0, unlink_analysis_id-All k d a.1)

pub unlink_each-All :
    (ids : List ℕ) (d : Dict Tab) → All HasDistinctIds d → All HasDistinctIds (unlink_each ids d)
unfolding unlink_each
unlink_each-All [] d a = a
unlink_each-All (k ∷ ks) d a = unlink_analysis_id-All k (unlink_each ks d) (unlink_each-All ks d a)

pub linked-IsDistinct :
    (id : ℕ) (t : Tab) → IsDistinct t.analysis_ids → IsDistinct (linked id t).analysis_ids
linked-IsDistinct id t h = ground (arith, IsDistinct-snoc id t.analysis_ids h)

-- What no Tab listed is not listed after another Analysis is taken out.
live-unlink :
    (k j : ℕ) (d : Dict Tab)
    → elem j (live_analysis_ids d) ≡ false
    → elem j (live_analysis_ids (unlink_analysis_id k d)) ≡ false
unfolding live_analysis_ids unlink_analysis_id
live-unlink k j [] h = refl
live-unlink k j (e ∷ d) h = ground (
  arith,
  live-unlink k j d,
  elem-remove_first k j e.1.analysis_ids,
  elem-append j e.1.analysis_ids (live_analysis_ids d),
  elem-append j (remove_first k e.1.analysis_ids) (live_analysis_ids (unlink_analysis_id k d)),
)

live-unlink_same :
    (k : ℕ) (d : Dict Tab)
    → All HasDistinctIds d
    → elem k (live_analysis_ids (unlink_analysis_id k d)) ≡ false
unfolding live_analysis_ids unlink_analysis_id
live-unlink_same k [] h = refl
live-unlink_same k (e ∷ d) h = ground (
  arith,
  live-unlink_same k d h.1,
  remove_first_gone k e.1.analysis_ids h.0,
  elem-append k (remove_first k e.1.analysis_ids) (live_analysis_ids (unlink_analysis_id k d)),
)

-- No Tab lists an Analysis that has been taken out.
pub live-unlink_each :
    (ids : List ℕ) (j : ℕ) (d : Dict Tab)
    → All HasDistinctIds d
    → elem j ids ≡ true
    → elem j (live_analysis_ids (unlink_each ids d)) ≡ false
unfolding unlink_each
live-unlink_each [] j d a h = ground arith
live-unlink_each (k ∷ ks) j d a h = elim (Bool-cases (j == k)) [
  | inl y ↦ rw ((==_iff j k).0 y) (live-unlink_same k (unlink_each ks d) (unlink_each-All ks d a))
  | inr n ↦ live-unlink k j (unlink_each ks d) (live-unlink_each ks j d a (ground arith))
]
