-- ===== src/Heuristic.antt =====
-- `HeuristicCandidate`, `NoiseControlResult` and `apply_noise_control` of heuristic.py.
pub mod Caps
pub mod Unique
use Prim.Native.Char.{code}
use yoinkc.Base.{
  ℕ, zero, suc, ◌+◌, ◌-◌, String, Bool, true, false, not, ◌&&◌, ◌||◌, Option, none, some, List, [],
  ◌∷◌, ◌++◌, ltb, leb, length, take, any, keep_if, contains, ◌==◌, string_eq, nat_eq, if◌then◌else◌,
}
use yoinkc.Base.Dict.{Dict, lookup, insert, upsert, get_or}
use yoinkc.Base.Text.{starts_with}
use yoinkc.Base.Slices.{holds_text}
use yoinkc.Base.Sort.{sort_by, str_leb}

abbrev pub max_findings_per_file : ℕ
max_findings_per_file = 10

abbrev pub max_findings_per_run : ℕ
max_findings_per_run = 100

pub record HeuristicCandidate : Type 0 where
  pub path : String
  pub source : String
  pub line_number : Option ℕ
  pub value : String
  pub confidence : String
  pub why_flagged : String
  pub key_name : Option String
  pub signals : List String

pub record NoiseControlResult : Type 0 where
  pub reported : List HeuristicCandidate
  pub all_candidates : List HeuristicCandidate
  pub suppressed_per_file : Dict String ℕ
  pub suppressed_total : ℕ
  pub dedup_counts : Dict String ℕ
  pub graduation_candidates : Dict String ℕ

-- The tuple of `_sort_key`, compared field by field; `is_non_file` is false before true.
pub record SortKey : Type 0 where
  pub is_non_file : Bool
  pub source : String
  pub path : String
  pub line : ℕ

pub sort_key : HeuristicCandidate → SortKey
sort_key c =
    let is_non_file = not (c.source == "file") in
    record {
      is_non_file = is_non_file;
      source = if is_non_file then c.source else "";
      path = c.path;
      line = get_or c.line_number 0;
    }

unfoldable pub bool_leb : Bool → Bool → Bool
bool_leb a b = not a || b

unfoldable pub bool_eq : Bool → Bool → Bool
bool_eq a b = if a then b else not b

unfoldable pub key_leb : SortKey → SortKey → Bool
unfolding bool_leb bool_eq string_eq str_leb
key_leb a b =
    if not (bool_eq a.is_non_file b.is_non_file)
    then bool_leb a.is_non_file b.is_non_file
    else if not (a.source == b.source)
    then str_leb a.source b.source
    else if not (a.path == b.path)
    then str_leb a.path b.path
    else leb a.line b.line

unfoldable pub sort_candidates : List HeuristicCandidate → List HeuristicCandidate
unfolding sort_by str_leb key_leb sort_key bool_leb bool_eq string_eq
sort_candidates = sort_by (λ c d. key_leb (sort_key c) (sort_key d))

-- (1) The candidates with a new value, and how often each value was seen. `seen_values` has the keys of
-- `dedup_counts`.
unfoldable pub dedup :
    List HeuristicCandidate
    → Dict String ℕ
    → List HeuristicCandidate
    → List HeuristicCandidate × Dict String ℕ
dedup [] dedup_counts deduped = (deduped, dedup_counts)
dedup (c ∷ candidates) dedup_counts deduped = elim (lookup c.value dedup_counts) [
  | none ↦ dedup candidates (insert c.value 1 dedup_counts) (deduped ++ (c ∷ []))
  | some n ↦ dedup candidates (insert c.value (n + 1) dedup_counts) deduped
]

pub record FileCaps : Type 0 where
  pub file_capped : List HeuristicCandidate
  pub file_counts : Dict String ℕ
  pub suppressed_per_file : Dict String ℕ

abbrev pub no_caps : FileCaps
no_caps = record { file_capped = []; file_counts = []; suppressed_per_file = [] }

-- (2) One candidate against the cap of its file.
unfoldable pub cap_one : HeuristicCandidate → FileCaps → FileCaps
unfolding lookup insert
cap_one c s =
    let count = get_or (lookup c.path s.file_counts) 0 in
    if ltb count max_findings_per_file
    then record s {
      file_capped = s.file_capped ++ (c ∷ []);
      file_counts = insert c.path (count + 1) s.file_counts;
    }
    else record s {
      suppressed_per_file =
          insert c.path (get_or (lookup c.path s.suppressed_per_file) 0 + 1) s.suppressed_per_file;
    }

unfoldable pub cap_files : List HeuristicCandidate → FileCaps → FileCaps
unfolding cap_one
cap_files [] s = s
cap_files (c ∷ deduped) s = cap_files deduped (cap_one c s)

-- s[: s.find("_") + 1], if there is an underscore
unfoldable pub to_underscore : String → Option String
unfolding nat_eq
to_underscore String.[] = none
to_underscore (String.◌∷◌ c s) =
    let longer : Option String = elim (to_underscore s) [
      | none ↦ none
      | some p ↦ some (String.◌∷◌ c p)
    ] in
    if code c == 95 then some (String.◌∷◌ c String.[]) else longer

-- The prefix of a value whose first underscore is not its first character.
unfoldable pub vendor_prefix : String → Option String
unfolding to_underscore
vendor_prefix value = if starts_with value "_" then none else to_underscore value

-- (4) The prefixes of the residual findings, counted over all candidates.
unfoldable pub count_prefixes : List HeuristicCandidate → Dict String ℕ → Dict String ℕ
unfolding holds_text vendor_prefix any insert lookup
count_prefixes [] counts = counts
count_prefixes (c ∷ candidates) counts = count_prefixes candidates (
    if any (holds_text "vendor_prefix_residual") c.signals
    then elim (vendor_prefix c.value) [
      | none ↦ counts
      | some prefix ↦ insert prefix (get_or (lookup prefix counts) 0 + 1) counts
    ]
    else counts)

-- `apply_noise_control`
unfoldable pub apply_noise_control : List HeuristicCandidate → NoiseControlResult
unfolding sort_candidates dedup cap_files count_prefixes take keep_if
apply_noise_control candidates =
    let (deduped, dedup_counts) = dedup (sort_candidates candidates) [] [] in
    let caps = cap_files deduped no_caps in
    record {
      reported = take max_findings_per_run caps.file_capped;
      all_candidates = deduped;
      suppressed_per_file = caps.suppressed_per_file;
      suppressed_total = length caps.file_capped - max_findings_per_run;
      dedup_counts = dedup_counts;
      graduation_candidates = keep_if (λ e. leb 3 e.1) (count_prefixes candidates []);
    }
