-- ===== src/Base/Dict.antt =====
-- Python's dict: pairs in the order of insertion.
use yoinkc.Base.{
  ◌≡◌, ◌≢◌, ◌⊎◌, refl, Bool, true, false, ◌||◌, Option, none, some, List, [], ◌∷◌, map, arith, Eq,
  ◌==◌, All, contains, keep_if, Distinct, if◌then◌else◌,
}

abbrev pub Dict {ℓ κ} : Type ℓ → Type κ → Type (ℓ ⊔ κ)
Dict K V = List (K × V)

-- d.keys(), d.values()
unfoldable pub keys {ℓ κ} : {K : Type ℓ} {V : Type κ} → Dict K V → List K
keys = map (λ e. e.0)

unfoldable pub values {ℓ κ} : {K : Type ℓ} {V : Type κ} → Dict K V → List V
values = map (λ e. e.1)

abbrev pub is_some {ℓ} : {A : Type ℓ} → Option A → Bool
is_some none = false
is_some (some a) = true

-- d.get(k, default)
abbrev pub get_or {ℓ} : {A : Type ℓ} → Option A → A → A
get_or none a = a
get_or (some b) a = b

-- What an entry becomes: a new one if there is none, and the old one updated.
abbrev pub updated {ℓ} : {V : Type ℓ} → V → (V → V) → Option V → V
updated v f none = v
updated v f (some w) = f w

module _ {ℓ κ} {K : Type ℓ} {V : Type κ} ⦃e : Eq K⦄ where
  -- d.get(k)
  unfoldable pub lookup : K → Dict K V → Option V
  lookup k [] = none
  lookup k ((j, v) ∷ d) = if k == j then some v else lookup k d

  -- d[k] = v
  unfoldable pub insert : K → V → Dict K V → Dict K V
  insert k v [] = (k, v) ∷ []
  insert k v ((j, w) ∷ d) = if k == j then (j, v) ∷ d else (j, w) ∷ insert k v d

  -- `if k not in d: d[k] = v`, `else` an update of the value in place
  unfoldable pub upsert : K → V → (V → V) → Dict K V → Dict K V
  upsert k v f [] = (k, v) ∷ []
  upsert k v f ((j, w) ∷ d) = if k == j then (j, f w) ∷ d else (j, w) ∷ upsert k v f d

  pub lookup-upsert :
      (j k : K) (v : V) (f : V → V) (d : Dict K V)
      → lookup j (upsert k v f d) ≡ (if j == k then some (updated v f (lookup k d)) else lookup j d)
  unfolding lookup upsert
  lookup-upsert j k v f [] = ground arith
  lookup-upsert j k v f ((i, w) ∷ d) = ground (arith, lookup-upsert j k v f d)

  pub lookup-insert :
      (j k : K) (v : V) (d : Dict K V)
      → lookup j (insert k v d) ≡ (if j == k then some v else lookup j d)
  unfolding lookup insert
  lookup-insert j k v [] = ground arith
  lookup-insert j k v ((i, w) ∷ d) = ground (arith, lookup-insert j k v d)

  -- What is found after an assignment was assigned, or is what was found before under another key.
  pub found_after_insert :
      (j k : K) (v w : V) (d : Dict K V)
      → lookup j (insert k v d) ≡ some w
      → ((j ≡ k) × (v ≡ w)) ⊎ ((j ≢ k) × (lookup j d ≡ some w))
  found_after_insert j k v w d h = ground (arith, lookup-insert j k v d, h)

  pub contains-keys : (k : K) (d : Dict K V) → contains (keys d) k ≡ is_some (lookup k d)
  unfolding contains keys lookup
  contains-keys k [] = refl
  contains-keys k ((i, w) ∷ d) = ground (arith, contains-keys k d)

  pub contains-keys-upsert :
      (j k : K) (v : V) (f : V → V) (d : Dict K V)
      → contains (keys (upsert k v f d)) j ≡ ((j == k) || contains (keys d) j)
  unfolding contains keys upsert
  contains-keys-upsert j k v f [] = ground arith
  contains-keys-upsert j k v f ((i, w) ∷ d) = ground (arith, contains-keys-upsert j k v f d)

  pub upsert-Distinct :
      (k : K) (v : V) (f : V → V) (d : Dict K V)
      → Distinct (keys d)
      → Distinct (keys (upsert k v f d))
  unfolding contains keys upsert
  upsert-Distinct k v f [] h = (refl, tt)
  upsert-Distinct k v f ((i, w) ∷ d) h =
      ground (arith, upsert-Distinct k v f d h.1, contains-keys-upsert i k v f d)

-- A property of the values that `lookup` finds holds of all values, if no key stands twice.
module _ {ℓ κ} {K : Type ℓ} {V : Type κ} ⦃e : Eq K⦄ where
  pub All-values :
      {P : V → Type 0} (d : Dict K V)
      → Distinct (keys d)
      → ((k : K) (v : V) → lookup k d ≡ some v → P v)
      → All P (values d)
  unfolding keys values lookup contains
  All-values [] h p = tt
  All-values ((k, v) ∷ d) h p = (
    p k v (ground arith),
    All-values d h.1 (λ j w found. p j w (ground (arith, found, contains-keys j d))),
  )

  pub All-entries :
      (P : K × V → Type 0) (d : Dict K V)
      → Distinct (keys d)
      → ((k : K) (v : V) → lookup k d ≡ some v → P (k, v))
      → All P d
  unfolding keys lookup contains
  All-entries P [] h p = tt
  All-entries P ((k, v) ∷ d) h p = (
    p k v (ground arith),
    All-entries P d h.1 (λ j w found. p j w (ground (arith, found, contains-keys j d))),
  )

pub map-values {ℓ κ} :
    {K : Type ℓ} {V : Type κ} (f : V → K) (d : Dict K V)
    → All (λ x. f x.1 ≡ x.0) d
    → map f (values d) ≡ keys d
unfolding values keys
map-values f [] h = refl
map-values f ((k, v) ∷ d) h = cc (h.0, map-values f d h.1)

-- The keys of the entries of a dict whose value passes a test.
abbrev pub passes : {V : Type 0} → (V → Bool) → Option V → Bool
passes q none = false
passes q (some v) = q v

pub contains-keys-keep_if :
    {K V : Type 0} ⦃e : Eq K⦄ (q : V → Bool) (d : Dict K V) (p : K)
    → Distinct (keys d)
    → contains (keys (keep_if (λ e. q e.1) d)) p ≡ passes q (lookup p d)
unfolding keys contains keep_if lookup
contains-keys-keep_if q [] p h = refl
contains-keys-keep_if q ((k, v) ∷ d) p h =
    ground (arith, contains-keys-keep_if q d p h.1, contains-keys p d, contains-keys k d)
