-- ===== src/Heuristic/Unique.antt =====
-- The deduplication of `apply_noise_control`: no value is lost, and each is counted.
use yoinkc.Base.{
  ℕ, ◌+◌, String, ◌≡◌, refl, ◌∙◌, false, ◌||◌, Option, none, some, List, [], ◌∷◌, ◌++◌, map, arith,
  ltb, Option-cases, inl, inr, length, keep_if, contains, Distinct, ◌==◌, string_eq,
}
use yoinkc.Base.Sort.Laws.{length-keep_if-sort_by}
use yoinkc.Base.Dict.{Dict, lookup, insert, is_some, lookup-insert}
use yoinkc.Heuristic.{HeuristicCandidate, dedup, sort_candidates, apply_noise_control}

abbrev pub values_of : List HeuristicCandidate → List String
values_of = map (λ c. c.value)

-- How many candidates have a value.
unfoldable pub with_value : String → List HeuristicCandidate → ℕ
unfolding keep_if
with_value v candidates = length (keep_if (λ c. v == c.value) candidates)

abbrev pub or_zero : Option ℕ → ℕ
or_zero none = 0
or_zero (some n) = n

values_of-append :
    (xs ys : List HeuristicCandidate) (v : String)
    → contains (values_of (xs ++ ys)) v ≡ (contains (values_of xs) v || contains (values_of ys) v)
unfolding contains
values_of-append [] ys v = refl
values_of-append (x ∷ xs) ys v = ground (arith, values_of-append xs ys v)

Distinct-snoc :
    (xs : List HeuristicCandidate) (c : HeuristicCandidate)
    → contains (values_of xs) c.value ≡ false
    → Distinct (values_of xs)
    → Distinct (values_of (xs ++ (c ∷ [])))
unfolding contains
Distinct-snoc [] c n h = (refl, tt)
Distinct-snoc (x ∷ xs) c n h =
    ground (arith, Distinct-snoc xs c, values_of-append xs (c ∷ []) x.value)

-- The counts have exactly the values of the kept candidates.
record IsInStep (counts : Dict String ℕ) (deduped : List HeuristicCandidate) : Type 0 where
  seen : (v : String) → is_some (lookup v counts) ≡ contains (values_of deduped) v
  distinct : Distinct (values_of deduped)

keep-IsInStep :
    (c : HeuristicCandidate) (counts : Dict String ℕ) (deduped : List HeuristicCandidate)
    → lookup c.value counts ≡ none
    → IsInStep counts deduped
    → IsInStep (insert c.value 1 counts) (deduped ++ (c ∷ []))
unfolding contains
keep-IsInStep c counts deduped new s = record {
  seen = λ v.
      ground
        (arith, s.seen v, lookup-insert v c.value 1 counts, values_of-append deduped (c ∷ []) v);
  distinct = Distinct-snoc deduped c (ground (arith, s.seen c.value)) s.distinct;
}

count-IsInStep :
    (c : HeuristicCandidate) (n : ℕ) (counts : Dict String ℕ) (deduped : List HeuristicCandidate)
    → lookup c.value counts ≡ some n
    → IsInStep counts deduped
    → IsInStep (insert c.value (n + 1) counts) deduped
count-IsInStep c n counts deduped old s = record {
  seen = λ v. ground (arith, s.seen v, lookup-insert v c.value (n + 1) counts);
  distinct = s.distinct;
}

dedup-IsInStep :
    (candidates : List HeuristicCandidate) (counts : Dict String ℕ)
    (deduped : List HeuristicCandidate)
    → IsInStep counts deduped
    → IsInStep (dedup candidates counts deduped).1 (dedup candidates counts deduped).0
unfolding dedup
dedup-IsInStep [] counts deduped s = s
dedup-IsInStep (c ∷ candidates) counts deduped s = elim (Option-cases (lookup c.value counts)) [
  | inl new ↦
      rw (new, dedup)
        (dedup-IsInStep candidates (insert c.value 1 counts) (deduped ++ (c ∷ []))
          (keep-IsInStep c counts deduped new s))
  | inr (n, old) ↦
      rw (old, dedup)
        (dedup-IsInStep candidates (insert c.value (n + 1) counts) deduped
          (count-IsInStep c n counts deduped old s))
]

dedup-counts :
    (v : String) (candidates : List HeuristicCandidate) (counts : Dict String ℕ)
    (deduped : List HeuristicCandidate)
    → or_zero (lookup v (dedup candidates counts deduped).1)
      ≡ or_zero (lookup v counts) + with_value v candidates
unfolding dedup with_value
dedup-counts v [] counts deduped = omega arith
dedup-counts v (c ∷ candidates) counts deduped = elim (Option-cases (lookup c.value counts)) [
  | inl new ↦
      rw (new, dedup)
        (ground (
          arith,
          dedup-counts v candidates (insert c.value 1 counts) (deduped ++ (c ∷ [])),
          lookup-insert v c.value 1 counts,
          new,
        ))
  | inr (n, old) ↦
      rw (old, dedup)
        (ground (
          arith,
          dedup-counts v candidates (insert c.value (n + 1) counts) deduped,
          lookup-insert v c.value (n + 1) counts,
          old,
        ))
]

with_value-sort :
    (v : String) (candidates : List HeuristicCandidate)
    → with_value v (sort_candidates candidates) ≡ with_value v candidates
unfolding with_value sort_candidates
with_value-sort v candidates = length-keep_if-sort_by _ (λ c. v == c.value) candidates

contains-with_value :
    (v : String) (candidates : List HeuristicCandidate)
    → contains (values_of candidates) v ≡ ltb 0 (with_value v candidates)
unfolding with_value contains
contains-with_value v [] = refl
contains-with_value v (c ∷ candidates) = ground (arith, contains-with_value v candidates)

contains-sort :
    (v : String) (candidates : List HeuristicCandidate)
    → contains (values_of (sort_candidates candidates)) v ≡ contains (values_of candidates) v
contains-sort v candidates = cc (
  contains-with_value v (sort_candidates candidates),
  contains-with_value v candidates,
  with_value-sort v candidates,
)

dedup-keeps :
    (v : String) (candidates : List HeuristicCandidate) (counts : Dict String ℕ)
    (deduped : List HeuristicCandidate)
    → IsInStep counts deduped
    → contains (values_of (dedup candidates counts deduped).0) v
      ≡ (contains (values_of deduped) v || contains (values_of candidates) v)
unfolding dedup contains
dedup-keeps v [] counts deduped s = ground arith
dedup-keeps v (c ∷ candidates) counts deduped s = elim (Option-cases (lookup c.value counts)) [
  | inl new ↦
      rw (new, dedup)
        (ground (
          arith,
          dedup-keeps v candidates (insert c.value 1 counts) (deduped ++ (c ∷ []))
              (keep-IsInStep c counts deduped new s),
          values_of-append deduped (c ∷ []) v,
        ))
  | inr (n, old) ↦
      rw (old, dedup)
        (ground (
          arith,
          dedup-keeps v candidates (insert c.value (n + 1) counts) deduped
              (count-IsInStep c n counts deduped old s),
          s.seen c.value,
          old,
        ))
]

nothing-IsInStep : IsInStep [] []
unfolding lookup contains
nothing-IsInStep = record { seen = λ v. refl; distinct = tt }

-- Among all candidates no value stands twice and no value of the input is lost, and the count of a value
-- is how many candidates of the input have it.
pub apply_noise_control-dedup :
    (candidates : List HeuristicCandidate)
    → let r = apply_noise_control candidates in
      Distinct (values_of r.all_candidates)
      × ((v : String) → contains (values_of r.all_candidates) v ≡ contains (values_of candidates) v)
      × ((v : String) → or_zero (lookup v r.dedup_counts) ≡ with_value v candidates)
unfolding apply_noise_control lookup contains
apply_noise_control-dedup candidates =
    let ordered = sort_candidates candidates in
    (
      (dedup-IsInStep ordered [] [] nothing-IsInStep).distinct,
      λ v. dedup-keeps v ordered [] [] nothing-IsInStep ∙ contains-sort v candidates,
      λ v. omega (arith, dedup-counts v ordered [] [], with_value-sort v candidates),
    )
