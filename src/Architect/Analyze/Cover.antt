-- ===== src/Architect/Analyze/Cover.antt =====
-- The layers of `analyze_fleets` hold exactly the packages of each fleet.
use yoinkc.Base.{
  String, ◌≡◌, refl, sym, ap, inl, inr, Option-cases, ◌∙◌, Bool, true, false, not, ◌&&◌, ◌||◌,
  Option, none, some, List, [], ◌∷◌, map, arith, keep_if, contains, contains-append,
  contains-keep_if, any, Distinct, ◌==◌, ==_refl, string_eq,
}
use yoinkc.Base.Dict.{
  passes, contains-keys-keep_if, Dict, lookup, upsert, updated, keys, lookup-upsert,
  upsert-Distinct,
}
use yoinkc.Base.Sort.{str_leb}
use yoinkc.Base.Sort.Laws.{contains-sort_by}
use yoinkc.Architect.Topology.{FleetInput}
use yoinkc.Architect.Topology.Moves.{packages-recalc_all}
use yoinkc.Architect.Analyze.{
  add_to_set, index_packages, index_fleets, includes, same_set, base_packages_of, derived_layer,
  base_layer, analyze_fleets,
}

-- The fleets of a package in the index.
abbrev in_index : Option (List String) → String → Bool
in_index none name = false
in_index (some names) name = contains names name

contains-add_to_set :
    (x : String) (s : List String) (y : String)
    → contains (add_to_set x s) y ≡ (contains s y || y == x)
unfolding add_to_set contains
contains-add_to_set x s y = ground (arith, contains-append s (x ∷ []) y)

in_index-updated :
    (name : String) (o : Option (List String)) (y : String)
    → contains (updated (name ∷ []) (add_to_set name) o) y ≡ (in_index o y || y == name)
unfolding contains
in_index-updated name none y = ground arith
in_index-updated name (some s) y = contains-add_to_set name s y

in_index-index_packages :
    (name : String) (packages : List String) (index : Dict String (List String)) (p y : String)
    → in_index (lookup p (index_packages name packages index)) y
      ≡ (in_index (lookup p index) y || (contains packages p && y == name))
unfolding index_packages contains
in_index-index_packages name [] index p y = ground arith
in_index-index_packages name (pkg ∷ packages) index p y = ground (
  arith,
  in_index-index_packages name packages (upsert pkg (name ∷ []) (add_to_set name) index) p y,
  lookup-upsert p pkg (name ∷ []) (add_to_set name) index,
  in_index-updated name (lookup pkg index) y,
)

-- A fleet of the name that has the package.
abbrev has_package : String → String → FleetInput → Bool
has_package p y f = contains f.packages p && y == f.name

in_index-index_fleets :
    (fleets : List FleetInput) (index : Dict String (List String)) (p y : String)
    → in_index (lookup p (index_fleets fleets index)) y
      ≡ (in_index (lookup p index) y || any (has_package p y) fleets)
unfolding index_fleets any
in_index-index_fleets [] index p y = ground arith
in_index-index_fleets (f ∷ fleets) index p y = ground (
  arith,
  in_index-index_fleets fleets (index_packages f.name f.packages index) p y,
  in_index-index_packages f.name f.packages index p y,
)

includes-contains :
    (s t : List String) (y : String)
    → includes s t ≡ true
    → contains t y ≡ true
    → contains s y ≡ true
unfolding includes contains
includes-contains s [] y h k = cc
includes-contains s (x ∷ xs) y h k = ground (arith, includes-contains s xs y)

includes_of :
    (s t : List String)
    → ((y : String) → contains t y ≡ true → contains s y ≡ true)
    → includes s t ≡ true
unfolding includes contains
includes_of s [] h = refl
includes_of s (x ∷ xs) h =
    ground (arith, h x, ==_refl x, includes_of s xs (λ y k. h y (ground (arith, k))))

index_packages-Distinct :
    (name : String) (packages : List String) (index : Dict String (List String))
    → Distinct (keys index)
    → Distinct (keys (index_packages name packages index))
unfolding index_packages
index_packages-Distinct name [] index h = h
index_packages-Distinct name (pkg ∷ packages) index h =
    index_packages-Distinct name packages (upsert pkg (name ∷ []) (add_to_set name) index)
      (upsert-Distinct pkg (name ∷ []) (add_to_set name) index h)

index_fleets-Distinct :
    (fleets : List FleetInput) (index : Dict String (List String))
    → Distinct (keys index)
    → Distinct (keys (index_fleets fleets index))
unfolding index_fleets
index_fleets-Distinct [] index h = h
index_fleets-Distinct (f ∷ fleets) index h =
    index_fleets-Distinct fleets (index_packages f.name f.packages index)
      (index_packages-Distinct f.name f.packages index h)

abbrev pub names_of : List FleetInput → List String
names_of = map (λ f. f.name)

-- The package is one of every fleet.
abbrev pub in_all : String → List FleetInput → Bool
in_all p [] = true
in_all p (f ∷ fleets) = contains f.packages p && in_all p fleets

has_package-names :
    (p y : String) (fleets : List FleetInput)
    → any (has_package p y) fleets ≡ true
    → contains (names_of fleets) y ≡ true
unfolding any contains
has_package-names p y [] h = cc
has_package-names p y (f ∷ fleets) h = ground (arith, has_package-names p y fleets)

has_package-in_all :
    (p y : String) (fleets : List FleetInput)
    → in_all p fleets ≡ true
    → contains (names_of fleets) y ≡ true
    → any (has_package p y) fleets ≡ true
unfolding any contains
has_package-in_all p y [] h k = cc
has_package-in_all p y (f ∷ fleets) h k = ground (arith, has_package-in_all p y fleets)

-- With distinct names a package that stands in the index under every name is one of every fleet.
in_all-has_package :
    (p : String) (fleets : List FleetInput)
    → Distinct (names_of fleets)
    → ((y : String) → contains (names_of fleets) y ≡ true → any (has_package p y) fleets ≡ true)
    → in_all p fleets ≡ true
unfolding any contains
in_all-has_package p [] h k = refl
in_all-has_package p (f ∷ fleets) h k = ground (
  arith,
  k f.name,
  ==_refl f.name,
  has_package-names p f.name fleets,
  in_all-has_package p fleets h.1 (λ y named. ground (arith, k y, named)),
)

Bool-ext : (a b : Bool) → (a ≡ true → b ≡ true) → (b ≡ true → a ≡ true) → a ≡ b
Bool-ext true b f g = sym (f refl)
Bool-ext false b f g = ground (arith, g)

module _ (fleets : List FleetInput) (p : String) where
  index : Dict String (List String)
  index = index_fleets fleets []

  in_index-any : (y : String) → in_index (lookup p index) y ≡ any (has_package p y) fleets
  unfolding index lookup
  in_index-any y = in_index-index_fleets fleets [] p y

  passes-in_all :
      Distinct (names_of fleets)
      → passes (λ s. same_set s (names_of fleets)) (lookup p index) ≡ true
      → in_all p fleets ≡ true
  unfolding same_set
  passes-in_all h found = elim (Option-cases (lookup p index)) [
    | inl absent ↦ cc (found, ap (passes (λ s. same_set s (names_of fleets))) absent)
    | inr (s, there) ↦ in_all-has_package p fleets h (λ y named.
        ground
          (arith, there, found, in_index-any y, includes-contains s (names_of fleets) y, named))
  ]

  in_all-passes :
      (f : FleetInput)
      → contains (names_of fleets) f.name ≡ true
      → in_all p fleets ≡ true
      → passes (λ s. same_set s (names_of fleets)) (lookup p index) ≡ true
  unfolding same_set
  in_all-passes f named all = elim (Option-cases (lookup p index)) [
    | inl absent ↦
        ground (arith, absent, in_index-any f.name, has_package-in_all p f.name fleets all named)
    | inr (s, there) ↦ ground (
      arith,
      there,
      includes_of s (names_of fleets)
          (λ y k. ground (arith, there, in_index-any y, has_package-in_all p y fleets all k)),
      includes_of (names_of fleets) s
          (λ y k. ground (arith, there, k, in_index-any y, has_package-names p y fleets)),
    )
  ]

-- The base layer has exactly the packages of every fleet.
contains-base_packages :
    (f : FleetInput) (fleets : List FleetInput) (p : String)
    → Distinct (names_of (f ∷ fleets))
    → contains (base_packages_of (f ∷ fleets)) p ≡ in_all p (f ∷ fleets)
unfolding base_packages_of index contains
contains-base_packages f fleets p h =
    let all = f ∷ fleets in
    contains-sort_by str_leb
      (keys (keep_if (λ e. same_set e.1 (names_of all)) (index_fleets all []))) p
    ∙ contains-keys-keep_if (λ s. same_set s (names_of all)) (index_fleets all []) p
        (index_fleets-Distinct all [] tt)
    ∙ Bool-ext _ _ (passes-in_all all p h) (in_all-passes all p f (ground (arith, ==_refl f.name)))

-- The packages of each derived layer beside those of its fleet.
abbrev pub Covers : List String → List FleetInput → List (List String) → Type 0
Covers base (f ∷ fleets) (derived ∷ layers) =
    ((p : String) → contains f.packages p ≡ (contains base p || contains derived p))
    × ((p : String) → (contains base p && contains derived p) ≡ false)
    × Covers base fleets layers
Covers base [] [] = Unit
Covers base _ _ = ⊥

contains-derived :
    (base : List String) (f : FleetInput) (p : String)
    → contains (derived_layer base f).packages p ≡ (contains f.packages p && not (contains base p))
unfolding derived_layer
contains-derived base f p =
    contains-sort_by str_leb (keep_if (λ pkg. not (contains base pkg)) f.packages) p
    ∙ contains-keep_if (λ pkg. not (contains base pkg)) f.packages p

derived-Covers :
    (base : List String) (fleets : List FleetInput)
    → ((p : String) → contains base p ≡ true → in_all p fleets ≡ true)
    → Covers base fleets (map (λ l. l.packages) (map (derived_layer base) fleets))
derived-Covers base [] h = tt
derived-Covers base (f ∷ fleets) h = (
  λ p. ground (arith, h p, contains-derived base f p),
  λ p. ground (arith, contains-derived base f p),
  derived-Covers base fleets (λ p k. ground (arith, h p k)),
)

-- Two or more fleets with distinct names: the first layer has exactly the packages that every fleet has,
-- the others are one for each fleet in order, each fleet has exactly the packages of the first layer and
-- of its own, and no layer repeats a package of the first one.
pub analyze_fleets-Covers :
    (f g : FleetInput) (rest : List FleetInput)
    → Distinct (names_of (f ∷ g ∷ rest))
    → let fleets = f ∷ g ∷ rest in
      (base : List String) × (derived : List (List String)) × (map
          (λ l. l.packages)
          (analyze_fleets fleets).layers
        ≡ base ∷ derived)
      × ((p : String) → contains base p ≡ in_all p fleets)
      × Covers base fleets derived
unfolding analyze_fleets
analyze_fleets-Covers f g rest h =
    let fleets = f ∷ g ∷ rest in
    let base = base_packages_of fleets in
    let exact = λ (p : String). contains-base_packages f (g ∷ rest) p h in
    (
      base,
      map (λ l. l.packages) (map (derived_layer base) fleets),
      packages-recalc_all (base_layer base (names_of fleets) ∷ map (derived_layer base) fleets),
      exact,
      derived-Covers base fleets (λ p k. cc (exact p)),
    )
