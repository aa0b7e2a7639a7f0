-- ===== src/Tests/Noise.antt =====
-- The noise control on three candidates, of which two have one value.
use yoinkc.Base.{
  ℕ, ◌+◌, ◌-◌, ◌≤◌, String, ◌≡◌, refl, none, some, List, [], ◌∷◌, length, contains, Distinct,
  string_eq,
}
use yoinkc.Base.Dict.{get_or, lookup}
use yoinkc.Heuristic.{HeuristicCandidate, apply_noise_control}
use yoinkc.Heuristic.Caps
use yoinkc.Heuristic.Caps.{of_file, total}
use yoinkc.Heuristic.Unique
use yoinkc.Heuristic.Unique.{values_of, or_zero, with_value}

abbrev candidate : String → ℕ → String → HeuristicCandidate
candidate path line value = record {
  path = path;
  source = "file";
  line_number = some line;
  value = value;
  confidence = "high";
  why_flagged = "high entropy";
  key_name = none;
  signals = [];
}

abbrev three : List HeuristicCandidate
three = candidate "/b" 1 "x" ∷ candidate "/a" 2 "x" ∷ candidate "/a" 1 "y" ∷ []

first_by_file : values_of (apply_noise_control three).reported ≡ "y" ∷ "x" ∷ []
unfolding apply_noise_control
first_by_file = refl

apply_noise_control-per_file_example :
    (of_file "/a" (apply_noise_control three).reported ≤ 10)
    × (get_or (lookup "/a" (apply_noise_control three).suppressed_per_file) 0
        ≡ of_file "/a" (apply_noise_control three).all_candidates - 10)
apply_noise_control-per_file_example = Caps.apply_noise_control-per_file three "/a"

apply_noise_control-accounts_example :
    (length (apply_noise_control three).reported ≤ 100)
    × (length (apply_noise_control three).reported
          + (apply_noise_control three).suppressed_total
          + total (apply_noise_control three).suppressed_per_file
        ≡ length (apply_noise_control three).all_candidates)
apply_noise_control-accounts_example = Caps.apply_noise_control-accounts three

apply_noise_control-dedup_example :
    Distinct (values_of (apply_noise_control three).all_candidates)
    × ((v : String)
        → contains (values_of (apply_noise_control three).all_candidates) v
          ≡ contains (values_of three) v)
    × ((v : String)
        → or_zero (lookup v (apply_noise_control three).dedup_counts) ≡ with_value v three)
apply_noise_control-dedup_example = Unique.apply_noise_control-dedup three
