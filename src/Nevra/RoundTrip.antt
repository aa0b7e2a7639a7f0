-- ===== src/Nevra/RoundTrip.antt =====
-- A package that is printed in the format of the query is parsed again.
use Prim.Native.Char.{Char, code}
use text.Mathlib.TextLemmas.{nil-append, cons-append}
use yoinkc.Base.{
  ℕ, String, ◌<>◌, ◌≡◌, refl, sym, ap, ◌∙◌, true, Bool-cases, inl, inr, none, some, List, [], ◌∷◌,
  ◌++◌, arith, ◌==◌, ==_refl, nat_eq, string_eq,
}
use yoinkc.Base.Text.{split_parts, split, join}
use yoinkc.Base.Text.Fields.{
  split_parts-join, split_parts-cut, join-split_parts, count_char-at, count_char-past,
}
use yoinkc.Base.Slices.{strip, split_once, split_last, count_char}
use yoinkc.Nevra.{
  is_digits, epoch_of_part, last_two, parsed_package, named, entry_of, parse_parts, parse_nevr,
  only_digits, is_ascii_digit,
}

split_once-append :
    (c : Char) (s t : String)
    → count_char (code c) s ≡ 0
    → split_once (code c) (s <> (String.◌∷◌ c t)) ≡ some (s, t)
unfolding split_once
split_once-append c String.[] t h = rw (nil-append, ==_refl (code c)) refl
split_once-append c (String.◌∷◌ d s) t h = elim (Bool-cases (code d == code c)) [
  | inl here ↦ absurd (omega (arith, h, count_char-at (code c) d s here))
  | inr other ↦
      rw
        (cons-append, other, split_once-append c s t (sym (count_char-past (code c) d s other) ∙ h))
        refl
]

split_last-absent : (sep : ℕ) (s : String) → count_char sep s ≡ 0 → split_last sep s ≡ none
unfolding split_last
split_last-absent sep String.[] h = refl
split_last-absent sep (String.◌∷◌ d s) h = elim (Bool-cases (code d == sep)) [
  | inl here ↦ absurd (omega (arith, h, count_char-at sep d s here))
  | inr other ↦ rw (split_last-absent sep s (sym (count_char-past sep d s other) ∙ h), other) refl
]

split_last-cons :
    (sep : ℕ) (d : Char) (s before behind : String)
    → split_last sep s ≡ some (before, behind)
    → split_last sep (String.◌∷◌ d s) ≡ some (String.◌∷◌ d before, behind)
unfolding split_last
split_last-cons sep d s before behind h = rw h refl

split_last-at :
    (c : Char) (t : String)
    → split_last (code c) t ≡ none
    → split_last (code c) (String.◌∷◌ c t) ≡ some ("", t)
unfolding split_last
split_last-at c t h = rw (h, ==_refl (code c)) refl

split_last-append :
    (c : Char) (s t : String)
    → count_char (code c) t ≡ 0
    → split_last (code c) (s <> (String.◌∷◌ c t)) ≡ some (s, t)
split_last-append c String.[] t h =
    cc (nil-append (String.◌∷◌ c t), split_last-at c t (split_last-absent (code c) t h))
split_last-append c (String.◌∷◌ d s) t h = cc (
  cons-append d s (String.◌∷◌ c t),
  split_last-cons (code c) d (s <> (String.◌∷◌ c t)) s t (split_last-append c s t h),
)

last_two-append :
    (front : List String) (x version release : String)
    → last_two ((x ∷ front) ++ (version ∷ release ∷ [])) ≡ some (x ∷ front, version, release)
unfolding last_two
last_two-append [] x version release = refl
last_two-append (y ∷ []) x version release = refl
last_two-append (y ∷ z ∷ front) x version release =
    rw (last_two-append (z ∷ front) y version release) refl

-- epoch:name-version-release.arch
unfoldable pub nevra_of : String → String → String → String → String → String
nevra_of epoch name version release arch =
    epoch <> (":" <> ((name <> ("-" <> (version <> ("-" <> release)))) <> ("." <> arch)))

cons-text : (c : Char) (s : String) → (String.◌∷◌ c "") <> s ≡ String.◌∷◌ c s
cons-text c s = cons-append c "" s ∙ ap (String.◌∷◌ c) (nil-append s)

only_digits-free : (s : String) → only_digits s ≡ true → count_char 58 s ≡ 0
unfolding only_digits is_ascii_digit count_char
only_digits-free String.[] h = refl
only_digits-free (String.◌∷◌ c s) h = ground (arith, only_digits-free s)

is_digits-free : (s : String) → is_digits s ≡ true → count_char 58 s ≡ 0
unfolding is_digits
is_digits-free s h = only_digits-free s (ground arith)

module _ (epoch name version release arch : String) where
  abbrev base : String
  base = name <> ("-" <> (version <> ("-" <> release)))

  split_parts-base :
      count_char 45 version ≡ 0
      → count_char 45 release ≡ 0
      → split_parts 45 base
        ≡ ((split_parts 45 name).0, (split_parts 45 name).1 ++ (version ∷ release ∷ []))
  unfolding join
  split_parts-base v r = cc (
    cons-text "-" (version <> ("-" <> release)),
    split_parts-cut "-" name (version <> ("-" <> release)),
    split_parts-join "-" version (release ∷ []) (v, (r, tt)),
  )

  entry_of-base :
      count_char 45 version ≡ 0
      → count_char 45 release ≡ 0
      → entry_of (some epoch) (some (base, arch))
        ≡ some (parsed_package name epoch version release arch)
  unfolding entry_of split named
  entry_of-base v r = cc (
    split_parts-base v r,
    last_two-append (split_parts 45 name).1 (split_parts 45 name).0 version release,
    join-split_parts "-" name,
  )

  epoch_kept : is_digits epoch ≡ true → epoch_of_part epoch ≡ some epoch
  unfolding epoch_of_part
  epoch_kept h = rw h refl

  -- For an epoch of digits, a version and a release without a dash and an architecture without a dot, the text of
  -- the package, if no whitespace stands around it, is parsed to its fields.
  pub parse_nevr-nevra_of :
      is_digits epoch ≡ true
      → count_char 45 version ≡ 0
      → count_char 45 release ≡ 0
      → count_char 46 arch ≡ 0
      → strip (nevra_of epoch name version release arch) ≡ nevra_of epoch name version release arch
      → parse_nevr (nevra_of epoch name version release arch)
        ≡ some (parsed_package name epoch version release arch)
  unfolding parse_nevr parse_parts nevra_of
  parse_nevr-nevra_of e v r a stripped = cc (
    stripped,
    cons-text ":" (base <> ("." <> arch)),
    split_once-append ":" epoch (base <> ("." <> arch)) (is_digits-free epoch e),
    cons-text "." arch,
    split_last-append "." base arch a,
    epoch_kept e,
    entry_of-base v r,
  )
