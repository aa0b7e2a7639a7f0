-- ===== src/Leaves/Walk.antt =====
-- The walk over the dependency graph finds exactly what can be reached.
use yoinkc.Base.{
  ℕ, zero, suc, ◌+◌, ◌≤◌, ◌<◌, String, ◌≡◌, refl, sym, ap, ◌∙◌, ◌↔◌, Bool, true, false, not, ◌||◌,
  Bool-cases, inl, inr, some, List, [], ◌∷◌, ◌++◌, length, length-append, length-keep_if-le,
  keep_if, contains, contains-append, contains-keep_if, arith, ◌==◌, ==_iff, string_eq,
}
use yoinkc.Base.Dict.{Dict, lookup}
use yoinkc.Leaves.{deps_of, visit, walk, weight, reachable_from}

-- A package that is among the first ones, or that a reached package depends on.
pub data Reaches (depends_on : Dict String (List String)) (first : List String)
    : String → Type 0 where
  at_first : (n : String) → contains first n ≡ true → Reaches depends_on first n
  onward :
      (m n : String)
      → Reaches depends_on first m
      → contains (deps_of depends_on m) n ≡ true
      → Reaches depends_on first n

weight-cons-le :
    (dep : String) (reachable : List String) (d : Dict String (List String))
    → weight (dep ∷ reachable) d ≤ weight reachable d
unfolding weight contains
weight-cons-le dep reachable [] = omega arith
weight-cons-le dep reachable ((name, deps) ∷ d) = ground (arith, weight-cons-le dep reachable d)

-- A package that is reached now pushes no more than what the weight loses.
weight-drops :
    (dep : String) (reachable : List String) (d : Dict String (List String))
    → contains reachable dep ≡ false
    → weight (dep ∷ reachable) d + length (deps_of d dep) ≤ weight reachable d
unfolding weight contains deps_of lookup
weight-drops dep reachable [] h = omega arith
weight-drops dep reachable ((name, deps) ∷ d) h =
    ground (arith, weight-drops dep reachable d h, weight-cons-le dep reachable d)

or_right : (a b : Bool) → (a || b) ≡ true → a ≡ false → b ≡ true
or_right a b h k = ground arith

or_left : (a b : Bool) → b ≡ true → (a || b) ≡ true
or_left a b h = ground arith

or_more : (a b : Bool) → a ≡ true → (a || b) ≡ true
or_more a b h = ground arith

or_false : (a : Bool) → (a || false) ≡ true → a ≡ true
or_false a h = ground arith

contains_later :
    (m dep : String) (xs : List String)
    → contains (dep ∷ xs) m ≡ true
    → (m == dep) ≡ false
    → contains xs m ≡ true
unfolding contains
contains_later m dep xs h k = ground (arith, h, k)

module _ (depends_on : Dict String (List String)) (first : List String) where
  abbrev seen : List String → List String → String → Bool
  seen reachable stack n = contains reachable n || contains stack n

  record IsWalk (reachable stack : List String) : Type 0 where
    sound : (n : String) → seen reachable stack n ≡ true → Reaches depends_on first n
    covers : (n : String) → contains first n ≡ true → seen reachable stack n ≡ true
    closed :
        (m n : String)
        → contains reachable m ≡ true
        → contains (deps_of depends_on m) n ≡ true
        → seen reachable stack n ≡ true

  -- What a visit of a package that is not reached leaves.
  abbrev pushed : String → List String → List String → List String
  pushed dep reachable stack =
      keep_if (λ d. not (contains (dep ∷ reachable) d)) (deps_of depends_on dep) ++ stack

  seen-pushed :
      (dep : String) (reachable stack : List String) (n : String)
      → seen (dep ∷ reachable) (pushed dep reachable stack) n
        ≡ (seen reachable (dep ∷ stack) n || contains (deps_of depends_on dep) n)
  unfolding contains
  seen-pushed dep reachable stack n = ground (
    arith,
    contains-append (keep_if (λ d. not (contains (dep ∷ reachable) d)) (deps_of depends_on dep))
        stack n,
    contains-keep_if (λ d. not (contains (dep ∷ reachable) d)) (deps_of depends_on dep) n,
  )

  seen-again :
      (dep : String) (reachable stack : List String) (n : String)
      → contains reachable dep ≡ true
      → seen reachable stack n ≡ seen reachable (dep ∷ stack) n
  unfolding contains
  seen-again dep reachable stack n h = ground (arith, h)

  seen-top :
      (dep : String) (reachable stack : List String) → seen reachable (dep ∷ stack) dep ≡ true
  unfolding contains
  seen-top dep reachable stack = ground arith

  visit-again :
      (dep : String) (reachable stack : List String)
      → contains reachable dep ≡ true
      → visit depends_on dep reachable stack ≡ (reachable, stack)
  unfolding visit
  visit-again dep reachable stack h = rw h refl

  visit-first :
      (dep : String) (reachable stack : List String)
      → contains reachable dep ≡ false
      → visit depends_on dep reachable stack ≡ (dep ∷ reachable, pushed dep reachable stack)
  unfolding visit
  visit-first dep reachable stack h = rw h refl

  again-IsWalk :
      (dep : String) (reachable stack : List String)
      → contains reachable dep ≡ true
      → IsWalk reachable (dep ∷ stack)
      → IsWalk reachable stack
  again-IsWalk dep reachable stack h v = record {
    sound = λ n p. v.sound n (sym (seen-again dep reachable stack n h) ∙ p);
    covers = λ n p. seen-again dep reachable stack n h ∙ v.covers n p;
    closed = λ m n p q. seen-again dep reachable stack n h ∙ v.closed m n p q;
  }

  first-Reaches :
      (dep : String) (reachable stack : List String) (n : String)
      → IsWalk reachable (dep ∷ stack)
      → (seen reachable (dep ∷ stack) n || contains (deps_of depends_on dep) n) ≡ true
      → Reaches depends_on first n
  first-Reaches dep reachable stack n v p = elim (Bool-cases (seen reachable (dep ∷ stack) n)) [
    | inl old ↦ v.sound n old
    | inr new ↦ onward dep n (v.sound dep (seen-top dep reachable stack)) (or_right _ _ p new)
  ]

  first-closed :
      (dep : String) (reachable stack : List String) (m n : String)
      → IsWalk reachable (dep ∷ stack)
      → contains (dep ∷ reachable) m ≡ true
      → contains (deps_of depends_on m) n ≡ true
      → (seen reachable (dep ∷ stack) n || contains (deps_of depends_on dep) n) ≡ true
  first-closed dep reachable stack m n v p q = elim (Bool-cases (m == dep)) [
    | inl same ↦
        or_left (seen reachable (dep ∷ stack) n) _
          (ap (λ x. contains (deps_of depends_on x) n) (sym ((==_iff m dep).0 same)) ∙ q)
    | inr other ↦
        or_more _ (contains (deps_of depends_on dep) n)
          (v.closed m n (contains_later m dep reachable p other) q)
  ]

  first-IsWalk :
      (dep : String) (reachable stack : List String)
      → IsWalk reachable (dep ∷ stack)
      → IsWalk (dep ∷ reachable) (pushed dep reachable stack)
  first-IsWalk dep reachable stack v = record {
    sound =
        λ n p. first-Reaches dep reachable stack n v (sym (seen-pushed dep reachable stack n) ∙ p);
    covers = λ n p. seen-pushed dep reachable stack n ∙ or_more _ _ (v.covers n p);
    closed =
        λ m n p q. seen-pushed dep reachable stack n ∙ first-closed dep reachable stack m n v p q;
  }

  -- What a walk that has ended tells.
  record IsReachable (reachable : List String) : Type 0 where
    pub found : (n : String) → contains reachable n ≡ true → Reaches depends_on first n
    pub finds : (n : String) → Reaches depends_on first n → contains reachable n ≡ true

  finds_all :
      (reachable : List String)
      → IsWalk reachable []
      → (n : String) → Reaches depends_on first n
      → contains reachable n ≡ true
  unfolding contains
  finds_all reachable v n (at_first m p) = or_false _ (v.covers n p)
  finds_all reachable v n (onward m k r p) = or_false _ (v.closed m n (finds_all reachable v m r) p)

  length-pushed-le :
      (dep : String) (reachable stack : List String)
      → length (pushed dep reachable stack) ≤ length (deps_of depends_on dep) + length stack
  length-pushed-le dep reachable stack = omega (
    arith,
    length-append (keep_if (λ d. not (contains (dep ∷ reachable) d)) (deps_of depends_on dep))
        stack,
    length-keep_if-le (λ d. not (contains (dep ∷ reachable) d)) (deps_of depends_on dep),
  )

  walk-IsReachable :
      (fuel : ℕ) (reachable stack : List String)
      → length stack + weight reachable depends_on < fuel
      → IsWalk reachable stack
      → (r : List String) × (walk fuel depends_on reachable stack ≡ some r) × IsReachable r
  unfolding walk contains
  walk-IsReachable zero reachable stack h v = elim h [ ]
  walk-IsReachable (suc fuel) reachable [] h v = (
    reachable,
    refl,
    record { found = λ n p. v.sound n (or_more _ _ p); finds = finds_all reachable v },
  )
  walk-IsReachable (suc fuel) reachable (dep ∷ stack) h v =
      elim (Bool-cases (contains reachable dep)) [
        | inl again ↦
            let (r, ends, is) =
              walk-IsReachable fuel reachable stack (omega arith)
                (again-IsWalk dep reachable stack again v) in
            (r, rw (visit-again dep reachable stack again) ends, is)
        | inr new ↦
            let (r, ends, is) =
              walk-IsReachable fuel (dep ∷ reachable) (pushed dep reachable stack)
                (omega (
                  arith,
                  weight-drops dep reachable depends_on new,
                  length-pushed-le dep reachable stack,
                ))
                (first-IsWalk dep reachable stack v) in
            (r, rw (visit-first dep reachable stack new) ends, is)
      ]

  start-IsWalk : IsWalk [] first
  unfolding contains
  start-IsWalk = record { sound = at_first; covers = λ n p. p; closed = λ m n p q. cc p }

-- The walk from a package returns within its fuel, and a package is in the result exactly if it is a dependency of the
-- first one or of a package in the result.
pub reachable_from-Reaches :
    (depends_on : Dict String (List String)) (leaf : String)
    → (r : List String) × (reachable_from depends_on leaf ≡ some r)
      × ((n : String) → (contains r n ≡ true) ↔ Reaches depends_on (deps_of depends_on leaf) n)
unfolding reachable_from
reachable_from-Reaches depends_on leaf =
    let first = deps_of depends_on leaf in
    let (r, ends, is) =
      walk-IsReachable depends_on first (suc (length first + weight [] depends_on)) [] first
        (omega arith) (start-IsWalk depends_on first) in
    (r, ends, λ n. (is.found n, is.finds n))
