-- ===== src/Fleet/Collect.antt =====
-- `_collect_section_lists` of fleet/merge.py, and what its `any(…)` and `next(…)` over the snapshots do.
use yoinkc.Base.{Bool, false, ◌||◌, Option, none, some, List, [], ◌∷◌, map}
use yoinkc.Base.Dict.{is_some}
use yoinkc.Schema.{InspectionSnapshot}

section_list : {S A : Type 0} → (S → List A) → Option S → List A
section_list list_attr none = []
section_list list_attr (some section) = list_attr section

unfoldable pub collect_section_lists :
    {S A : Type 0}
    → (InspectionSnapshot → Option S)
    → (S → List A)
    → List InspectionSnapshot
    → List (List A)
unfolding section_list
collect_section_lists section_attr list_attr snapshots =
    map (λ s. section_list list_attr (section_attr s)) snapshots

-- any(s.section for s in snapshots)
unfoldable pub has_section :
    {S : Type 0} → (InspectionSnapshot → Option S) → List InspectionSnapshot → Bool
has_section section_attr [] = false
has_section section_attr (s ∷ snapshots) =
    is_some (section_attr s) || has_section section_attr snapshots

-- next((s.section for s in snapshots if s.section), None)
unfoldable pub first_section :
    {S : Type 0} → (InspectionSnapshot → Option S) → List InspectionSnapshot → Option S
first_section section_attr [] = none
first_section section_attr (s ∷ snapshots) = elim (section_attr s) [
  | none ↦ first_section section_attr snapshots
  | some section ↦ some section
]
