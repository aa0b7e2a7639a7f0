-- ===== src/Heuristic/Caps.antt =====
-- The caps of `apply_noise_control`: how many findings of a file and of a run are reported.
use yoinkc.Base.{
  ℕ, zero, suc, ◌+◌, ◌-◌, ◌≤◌, ◌⊎◌, inl, String, ◌≡◌, refl, List, [], ◌∷◌, ◌++◌, arith, length,
  take, length-take-le, keep_if, keep_if-append, length-append, ◌==◌, string_eq,
}
use yoinkc.Base.Dict.{Dict, lookup, insert, get_or, lookup-insert}
use yoinkc.Heuristic.{
  HeuristicCandidate, FileCaps, no_caps, cap_one, cap_files, dedup, sort_candidates,
  apply_noise_control,
}

-- How many candidates are of a file.
unfoldable pub of_file : String → List HeuristicCandidate → ℕ
unfolding keep_if
of_file p candidates = length (keep_if (λ c. p == c.path) candidates)

abbrev kept : String → FileCaps → ℕ
kept p s = of_file p s.file_capped

abbrev suppressed : String → FileCaps → ℕ
suppressed p s = get_or (lookup p s.suppressed_per_file) 0

record IsCounted (s : FileCaps) : Type 0 where
  counts : (p : String) → get_or (lookup p s.file_counts) 0 ≡ of_file p s.file_capped
  capped : (p : String) → of_file p s.file_capped ≤ 10
  full : (p : String) → (suppressed p s ≡ 0) ⊎ (of_file p s.file_capped ≡ 10)

of_file-snoc :
    (p : String) (c : HeuristicCandidate) (xs : List HeuristicCandidate)
    → of_file p (xs ++ (c ∷ [])) ≡ of_file p xs + of_file p (c ∷ [])
unfolding of_file
of_file-snoc p c xs = ground (
  arith,
  keep_if-append (λ d. p == d.path) xs (c ∷ []),
  length-append (keep_if (λ d. p == d.path) xs) (keep_if (λ d. p == d.path) (c ∷ [])),
)

cap_one-counts : (c : HeuristicCandidate) (s : FileCaps) → IsCounted s → IsCounted (cap_one c s)
unfolding cap_one of_file
cap_one-counts c s v = record {
  counts = λ p. ground (
    arith,
    v.counts p,
    v.counts c.path,
    of_file-snoc p c s.file_capped,
    lookup-insert p c.path (get_or (lookup c.path s.file_counts) 0 + 1) s.file_counts,
  );
  capped =
      λ p. ground (arith, v.counts p, v.counts c.path, v.capped p, of_file-snoc p c s.file_capped);
  full = λ p. ground (
    arith,
    v.counts p,
    v.counts c.path,
    v.capped p,
    v.full p,
    of_file-snoc p c s.file_capped,
    lookup-insert p c.path (get_or (lookup c.path s.suppressed_per_file) 0 + 1)
        s.suppressed_per_file,
  );
}

cap_one-accounts :
    (p : String) (c : HeuristicCandidate) (s : FileCaps)
    → kept p (cap_one c s) + suppressed p (cap_one c s)
      ≡ kept p s + suppressed p s + of_file p (c ∷ [])
unfolding cap_one of_file
cap_one-accounts p c s = ground (
  arith,
  of_file-snoc p c s.file_capped,
  lookup-insert p c.path (get_or (lookup c.path s.suppressed_per_file) 0 + 1) s.suppressed_per_file,
)

of_file-cons :
    (p : String) (c : HeuristicCandidate) (xs : List HeuristicCandidate)
    → of_file p (c ∷ xs) ≡ of_file p (c ∷ []) + of_file p xs
unfolding of_file
of_file-cons p c xs = ground arith

cap_files-counts :
    (deduped : List HeuristicCandidate) (s : FileCaps)
    → IsCounted s
    → IsCounted (cap_files deduped s)
unfolding cap_files
cap_files-counts [] s v = v
cap_files-counts (c ∷ deduped) s v = cap_files-counts deduped (cap_one c s) (cap_one-counts c s v)

cap_files-accounts :
    (p : String) (deduped : List HeuristicCandidate) (s : FileCaps)
    → kept p (cap_files deduped s) + suppressed p (cap_files deduped s)
      ≡ kept p s + suppressed p s + of_file p deduped
unfolding cap_files of_file
cap_files-accounts p [] s = omega arith
cap_files-accounts p (c ∷ deduped) s = omega (
  arith,
  cap_files-accounts p deduped (cap_one c s),
  cap_one-accounts p c s,
  of_file-cons p c deduped,
)

no_caps-IsCounted : IsCounted no_caps
unfolding of_file lookup
no_caps-IsCounted = record { counts = λ p. refl; capped = λ p. omega arith; full = λ p. inl refl }

-- What the caps leave of a file is its first ten, and the rest is counted as suppressed.
cap_files-exact :
    (p : String) (deduped : List HeuristicCandidate)
    → (suppressed p (cap_files deduped no_caps) ≡ of_file p deduped - 10)
      × (kept p (cap_files deduped no_caps) ≤ 10)
unfolding of_file lookup
cap_files-exact p deduped =
    let v = cap_files-counts deduped no_caps no_caps-IsCounted in
    let account = cap_files-accounts p deduped no_caps in
    let full = v.full p in let capped = v.capped p in ground (arith, full, capped, account)

of_file-take-le :
    (p : String) (n : ℕ) (xs : List HeuristicCandidate) → of_file p (take n xs) ≤ of_file p xs
unfolding of_file take
of_file-take-le p zero xs = omega arith
of_file-take-le p (suc n) [] = omega arith
of_file-take-le p (suc n) (c ∷ xs) = ground (arith, of_file-take-le p n xs)

length-take :
    (n : ℕ) (xs : List HeuristicCandidate) → length (take n xs) + (length xs - n) ≡ length xs
unfolding take
length-take zero xs = omega arith
length-take (suc n) [] = omega arith
length-take (suc n) (c ∷ xs) = omega (arith, length-take n xs)

-- Of no file are more than ten findings reported, and what the cap of a file suppresses is what the file
-- has beyond ten among all candidates.
pub apply_noise_control-per_file :
    (candidates : List HeuristicCandidate) (p : String)
    → let r = apply_noise_control candidates in
      (of_file p r.reported ≤ 10)
      × (get_or (lookup p r.suppressed_per_file) 0 ≡ of_file p r.all_candidates - 10)
unfolding apply_noise_control
apply_noise_control-per_file candidates p =
    let deduped = (dedup (sort_candidates candidates) [] []).0 in
    let (exact, capped) = cap_files-exact p deduped in
    let taken = of_file-take-le p 100 (cap_files deduped no_caps).file_capped in
    (omega arith, exact)

-- sum(d.values())
unfoldable pub total : Dict String ℕ → ℕ
total [] = 0
total ((k, n) ∷ d) = n + total d

total-insert :
    (k : String) (d : Dict String ℕ) → total (insert k (get_or (lookup k d) 0 + 1) d) ≡ total d + 1
unfolding total insert lookup
total-insert k [] = omega arith
total-insert k ((j, n) ∷ d) = ground (arith, total-insert k d)

cap_files-total :
    (deduped : List HeuristicCandidate) (s : FileCaps)
    → let s' = cap_files deduped s in
      length s'.file_capped + total s'.suppressed_per_file
      ≡ length s.file_capped + total s.suppressed_per_file + length deduped
unfolding cap_files cap_one
cap_files-total [] s = omega arith
cap_files-total (c ∷ deduped) s = ground (
  arith,
  cap_files-total deduped (cap_one c s),
  total-insert c.path s.suppressed_per_file,
  length-append s.file_capped (c ∷ []),
)

-- At most a hundred findings are reported, and each candidate with a value of its own is reported or
-- counted as suppressed, by the cap of its file or by the cap of the run.
pub apply_noise_control-accounts :
    (candidates : List HeuristicCandidate)
    → let r = apply_noise_control candidates in
      (length r.reported ≤ 100)
      × (length r.reported + r.suppressed_total + total r.suppressed_per_file
          ≡ length r.all_candidates)
unfolding apply_noise_control total
apply_noise_control-accounts candidates =
    let deduped = (dedup (sort_candidates candidates) [] []).0 in
    let all = cap_files-total deduped no_caps in
    let capped = (cap_files deduped no_caps).file_capped in
    let taken = length-take 100 capped in
    let bounded = length-take-le 100 capped in (bounded, omega arith)
