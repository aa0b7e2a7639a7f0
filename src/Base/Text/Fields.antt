-- ===== src/Base/Text/Fields.antt =====
-- Fields of a line: splitting and joining are inverse to each other.
use Prim.Native.Char.{Char, code}
use text.Mathlib.TextLemmas.{nil-append, append-nil, cons-append}
use text.Mathlib.TextEquality.{Char-path}
use yoinkc.Base.{
  ◌++◌, ==_iff, ℕ, ◌+◌, String, ◌<>◌, ◌≡◌, refl, sym, ap, ◌∙◌, ==_refl, true, false, Bool-cases,
  inl, inr, List, [], ◌∷◌, All, arith, ◌==◌, nat_eq,
}
use yoinkc.Base.Text.{starts_with, split_parts, split, join}
use yoinkc.Base.Slices.{count_char}

pub starts_with-append : (p s : String) → starts_with (p <> s) p ≡ true
unfolding starts_with
starts_with-append String.[] s = refl
starts_with-append (String.◌∷◌ c p) s = rw (cons-append, ==_refl (code c)) (starts_with-append p s)

module _ (sep : ℕ) (c : Char) (s : String) where
  pub split_parts-at :
      (code c == sep) ≡ true
      → split_parts sep (String.◌∷◌ c s) ≡ ("", (split_parts sep s).0 ∷ (split_parts sep s).1)
  unfolding split_parts
  split_parts-at h = rw h refl

  pub split_parts-past :
      (code c == sep) ≡ false
      → split_parts sep (String.◌∷◌ c s)
        ≡ (String.◌∷◌ c (split_parts sep s).0, (split_parts sep s).1)
  unfolding split_parts
  split_parts-past h = rw h refl

  pub count_char-at :
      (code c == sep) ≡ true → count_char sep (String.◌∷◌ c s) ≡ 1 + count_char sep s
  unfolding count_char
  count_char-at h = rw h refl

  pub count_char-past : (code c == sep) ≡ false → count_char sep (String.◌∷◌ c s) ≡ count_char sep s
  unfolding count_char
  count_char-past h = rw h (omega arith)

-- No field of a split line holds the separator.
split_parts-free :
    (sep : ℕ) (s : String)
    → (count_char sep (split_parts sep s).0 ≡ 0)
      × All (λ f. count_char sep f ≡ 0) (split_parts sep s).1
unfolding split_parts count_char
split_parts-free sep String.[] = (refl, tt)
split_parts-free sep (String.◌∷◌ c s) = elim (Bool-cases (code c == sep)) [
  | inl here ↦ rw (split_parts-at sep c s here) (refl, split_parts-free sep s)
  | inr other ↦
      let rest = split_parts-free sep s in
      rw (split_parts-past sep c s other) (count_char-past sep c _ other ∙ rest.0, rest.1)
]

pub split-free : (sep : ℕ) (s : String) → All (λ f. count_char sep f ≡ 0) (split sep s)
unfolding split
split-free sep s = split_parts-free sep s

-- A text without the separator goes into the first field.
split_parts-append :
    (sep : ℕ) (s t : String)
    → count_char sep s ≡ 0
    → split_parts sep (s <> t) ≡ (s <> (split_parts sep t).0, (split_parts sep t).1)
split_parts-append sep String.[] t h = cc (nil-append t, nil-append (split_parts sep t).0)
split_parts-append sep (String.◌∷◌ c s) t h = elim (Bool-cases (code c == sep)) [
  | inl here ↦ absurd (omega (arith, h, count_char-at sep c s here))
  | inr other ↦
      let rest = split_parts-append sep s t (sym (count_char-past sep c s other) ∙ h) in
      cc (
        cons-append c s t,
        cons-append c s (split_parts sep t).0,
        split_parts-past sep c (s <> t) other,
        rest,
      )
]

module _ (c : Char) where
  abbrev separator : String
  separator = String.◌∷◌ c ""

  split_parts-separator :
      (s : String)
      → split_parts (code c) (separator <> s)
        ≡ ("", (split_parts (code c) s).0 ∷ (split_parts (code c) s).1)
  split_parts-separator s =
      ap (split_parts (code c)) (cons-append c "" s ∙ ap (String.◌∷◌ c) (nil-append s))
      ∙ split_parts-at (code c) c s (==_refl (code c))

  split_parts-empty : split_parts (code c) "" ≡ ("", [])
  unfolding split_parts
  split_parts-empty = refl

  -- Joined fields without the separator are split again.
  pub split_parts-join :
      (field : String) (fields : List String)
      → All (λ f. count_char (code c) f ≡ 0) (field ∷ fields)
      → split_parts (code c) (join separator (field ∷ fields)) ≡ (field, fields)
  unfolding join
  split_parts-join field [] h =
      cc (append-nil field, split_parts-append (code c) field "" h.0, split_parts-empty)
  split_parts-join field (next ∷ fields) h = cc (
    append-nil field,
    split_parts-append (code c) field (separator <> join separator (next ∷ fields)) h.0,
    split_parts-separator (join separator (next ∷ fields)),
    split_parts-join next fields h.1,
  )

  -- The fields of a text with a separator are those before it and those behind it.
  pub split_parts-cut :
      (s t : String)
      → split_parts (code c) (s <> (String.◌∷◌ c t)) ≡ (
        (split_parts (code c) s).0,
        (split_parts (code c) s).1 ++ ((split_parts (code c) t).0 ∷ (split_parts (code c) t).1),
      )
  split_parts-cut String.[] t = cc (
    nil-append (String.◌∷◌ c t),
    split_parts-at (code c) c t (==_refl (code c)),
    split_parts-empty,
  )
  split_parts-cut (String.◌∷◌ d s) t = elim (Bool-cases (code d == code c)) [
    | inl here ↦ cc (
      cons-append d s (String.◌∷◌ c t),
      split_parts-at (code c) d (s <> (String.◌∷◌ c t)) here,
      split_parts-at (code c) d s here,
      split_parts-cut s t,
    )
    | inr other ↦ cc (
      cons-append d s (String.◌∷◌ c t),
      split_parts-past (code c) d (s <> (String.◌∷◌ c t)) other,
      split_parts-past (code c) d s other,
      split_parts-cut s t,
    )
  ]

  join-cons :
      (d : Char) (field : String) (fields : List String)
      → join separator (String.◌∷◌ d field ∷ fields)
        ≡ String.◌∷◌ d (join separator (field ∷ fields))
  unfolding join
  join-cons d field [] = refl
  join-cons d field (next ∷ fields) =
      cons-append d field (separator <> join separator (next ∷ fields))

  separator-append : (s : String) → "" <> (separator <> s) ≡ String.◌∷◌ c s
  separator-append s =
      nil-append (separator <> s) ∙ cons-append c "" s ∙ ap (String.◌∷◌ c) (nil-append s)

  -- A split text is joined again.
  pub join-split_parts :
      (s : String) → join separator ((split_parts (code c) s).0 ∷ (split_parts (code c) s).1) ≡ s
  unfolding join
  join-split_parts String.[] = cc split_parts-empty
  join-split_parts (String.◌∷◌ d s) = elim (Bool-cases (code d == code c)) [
    | inl here ↦ cc (
      split_parts-at (code c) d s here,
      separator-append (join separator ((split_parts (code c) s).0 ∷ (split_parts (code c) s).1)),
      join-split_parts s,
      Char-path d c ((==_iff (code d) (code c)).0 here),
    )
    | inr other ↦ cc (
      split_parts-past (code c) d s other,
      join-cons d (split_parts (code c) s).0 (split_parts (code c) s).1,
      join-split_parts s,
    )
  ]
