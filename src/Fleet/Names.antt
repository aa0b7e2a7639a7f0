-- ===== src/Fleet/Names.antt =====
-- `compute_display_names` and `assign_display_names` of fleet/loader.py.
pub mod Loop
use yoinkc.Base.{
  ℕ, zero, suc, ◌+◌, String, ◌<>◌, Bool, true, false, ◌||◌, not, Option, none, some, List, [], ◌∷◌,
  ◌++◌, map, ltb, length, take, keep_if, ◌==◌, string_eq, Result, ok, raise, attribute_error, ◌>>=◌,
  if◌then◌else◌,
}
use yoinkc.Base.Dict.{Dict, values, upsert, get_or}
use yoinkc.Base.Text.{split, join, decimal}
use yoinkc.Schema.{
  InspectionSnapshot, Json, null, bool, num, str, arr, obj, nil, cons, end, field, Fields, get, put,
}

-- hostname.split(".") if hostname else [""]: the empty name splits into "" as well
unfoldable pub segments_of : List String → List (List String)
unfolding split
segments_of = map (split 46)

-- ".".join(parts[: min(depth, len(parts))])
unfoldable pub label_at : List String → ℕ → String
unfolding take join
label_at parts depth = join "." (take depth parts)

-- `labels_for_depths`
unfoldable pub labels_for_depths : List (List String) → List ℕ → List String
unfolding label_at
labels_for_depths (parts ∷ segments) (depth ∷ depths) =
    label_at parts depth ∷ labels_for_depths segments depths
labels_for_depths _ _ = []

-- The positions of each label.
unfoldable pub group_labels : ℕ → List String → Dict String (List ℕ) → Dict String (List ℕ)
group_labels idx [] groups = groups
group_labels idx (label ∷ labels) groups =
    group_labels (suc idx) labels
      (upsert label (idx ∷ []) (λ indices. indices ++ (idx ∷ [])) groups)

-- [indices for indices in groups.values() if len(indices) > 1]
unfoldable pub collisions_of : List String → List (List ℕ)
unfolding group_labels values keep_if string_eq
collisions_of labels =
    keep_if (λ indices. ltb 1 (length indices)) (values (group_labels 0 labels []))

-- One position: `if depths[idx] < len(segments[idx])`, then the depth grows.
unfoldable pub bump_at : ℕ → List (List String) → List ℕ → List ℕ × Bool
bump_at idx [] depths = (depths, false)
bump_at idx (parts ∷ segments) [] = ([], false)
bump_at zero (parts ∷ segments) (depth ∷ depths) =
    if ltb depth (length parts) then (suc depth ∷ depths, true) else (depth ∷ depths, false)
bump_at (suc idx) (parts ∷ segments) (depth ∷ depths) =
    let (depths', changed) = bump_at idx segments depths in (depth ∷ depths', changed)

unfoldable pub bump_indices : List (List String) → List ℕ → List ℕ × Bool → List ℕ × Bool
unfolding bump_at
bump_indices segments [] state = state
bump_indices segments (idx ∷ indices) (depths, changed) =
    let (depths', grown) = bump_at idx segments depths in
    bump_indices segments indices (depths', changed || grown)

-- The loop over the collisions.
unfoldable pub bump_all : List (List String) → List (List ℕ) → List ℕ × Bool → List ℕ × Bool
unfolding bump_indices
bump_all segments [] state = state
bump_all segments (indices ∷ collisions) state =
    bump_all segments collisions (bump_indices segments indices state)

-- labels[idx] = value
set_label : ℕ → String → List String → List String
set_label idx value [] = []
set_label zero value (label ∷ labels) = value ∷ labels
set_label (suc idx) value (label ∷ labels) = label ∷ set_label idx value labels

-- segments[idx][0]
first_segment : ℕ → List (List String) → String
first_segment idx [] = ""
first_segment zero ([] ∷ segments) = ""
first_segment zero ((part ∷ parts) ∷ segments) = part
first_segment (suc idx) (parts ∷ segments) = first_segment idx segments

number_group : List (List String) → ℕ → List ℕ → List String → List String
number_group segments ordinal [] labels = labels
number_group segments ordinal (idx ∷ indices) labels =
    number_group segments (suc ordinal) indices
      (set_label idx (first_segment idx segments <> (" (" <> (decimal ordinal <> ")"))) labels)

number_groups : List (List String) → List (List ℕ) → List String → List String
number_groups segments [] labels = labels
number_groups segments (indices ∷ groups) labels =
    number_groups segments groups (number_group segments 1 indices labels)

-- Numeric suffixes for the names that still collide, counted in each group.
unfoldable pub number_duplicates : List (List String) → List String → List String
unfolding number_groups number_group set_label first_segment collisions_of
number_duplicates segments labels = number_groups segments (collisions_of labels) labels

-- `while True`, on fuel: `none` means that the fuel ran out.
unfoldable pub disambiguate : ℕ → List (List String) → List ℕ → Option (List String)
unfolding labels_for_depths collisions_of bump_all number_duplicates
disambiguate zero segments depths = none
disambiguate (suc fuel) segments depths =
    let labels = labels_for_depths segments depths in
    elim (collisions_of labels) [
      | [] ↦ some labels
      | c ∷ cs ↦
          let (depths', changed) = bump_all segments (c ∷ cs) (depths, false) in
          let again = disambiguate fuel segments depths' in
          let numbered = number_duplicates segments (labels_for_depths segments depths') in
          if changed then again else some numbered
    ]

-- What the depths can still grow.
unfoldable pub total_segments : List (List String) → ℕ
total_segments [] = 0
total_segments (parts ∷ segments) = length parts + total_segments segments

-- [1] * len(hostnames)
abbrev pub first_depths : List String → List ℕ
first_depths = map (λ h. 1)

-- `compute_display_names`; each round but the last makes a depth grow.
unfoldable pub compute_display_names : List String → List String
unfolding segments_of disambiguate total_segments
compute_display_names hostnames =
    let segments = segments_of hostnames in
    get_or (disambiguate (suc (total_segments segments)) segments (first_depths hostnames)) []

-- What `hostname.split` does with a value of the metadata: what is false is the empty name, and what
-- is no text has no `split`.
unfoldable pub hostname_text : Json → Result String
hostname_text null = ok ""
hostname_text (bool false) = ok ""
hostname_text (bool true) = raise attribute_error
hostname_text (num zero) = ok ""
hostname_text (num (suc n)) = raise attribute_error
hostname_text (str s) = ok s
hostname_text (arr nil) = ok ""
hostname_text (arr (cons x xs)) = raise attribute_error
hostname_text (obj end) = ok ""
hostname_text (obj (field k v d)) = raise attribute_error

-- [s.meta.get("hostname", f"host-{i}") for i, s in enumerate(snapshots)]
unfoldable pub full_hostnames : ℕ → List InspectionSnapshot → List Json
unfolding decimal get
full_hostnames idx [] = []
full_hostnames idx (s ∷ snapshots) =
    get_or (get "hostname" s.meta) (str ("host-" <> decimal idx))
    ∷ full_hostnames (suc idx) snapshots

unfoldable pub hostname_texts : List Json → Result (List String)
unfolding hostname_text
hostname_texts [] = ok []
hostname_texts (v ∷ vs) = do name ← hostname_text v; names ← hostname_texts vs; ok (name ∷ names)

-- snapshot.meta["display_name"] = display_name, for the snapshots and the names in step
unfoldable pub store_names : List InspectionSnapshot → List String → List InspectionSnapshot
unfolding put
store_names (s ∷ snapshots) (name ∷ names) =
    record s { meta = put "display_name" (str name) s.meta } ∷ store_names snapshots names
store_names snapshots _ = snapshots

-- `assign_display_names`: the names, and the snapshots as it leaves them
unfoldable pub assign_display_names :
    List InspectionSnapshot → Result (List String × List InspectionSnapshot)
unfolding full_hostnames hostname_texts compute_display_names store_names
assign_display_names snapshots = do
  hostnames ← hostname_texts (full_hostnames 0 snapshots)
  let display_names = compute_display_names hostnames
  ok (display_names, store_names snapshots display_names)
