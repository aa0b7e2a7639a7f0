-- ===== src/Redact/Registry/Tokens.antt =====
-- Tokens of the registry: different secrets have different tokens, and a secret keeps its token.
use Prim.Native.Char.{Char}
use text.Mathlib.TextLemmas.{nil-append, cons-append, append_cancel_left}
use yoinkc.Base.{
  ℕ, ◌+◌, ◌≤◌, String, ◌<>◌, ◌≡◌, refl, sym, ap, ◌∙◌, inl, inr, none, some, Option-cases, arith,
  string_eq, pair_eq, nat_eq,
}
use yoinkc.Base.Dict.{Dict, lookup, insert, lookup-insert, found_after_insert, get_or}
use yoinkc.Base.Text.{decimal}
use yoinkc.Base.Slices.{count_char}
use yoinkc.Base.Decimal.{to_number, to_number-decimal, count_char-decimal, count_char-append}
use mathlib.Core.Path.{subst}
use yoinkc.Redact.Registry.{Registry, new_registry, token_of, get_token}

underscore-cons : (d : String) → "_" <> d ≡ String.◌∷◌ "_" d
underscore-cons d = cons-append "_" "" d ∙ ap (String.◌∷◌ "_") (nil-append d)

cons_inj : (c c' : Char) (s t : String) → String.◌∷◌ c s ≡ String.◌∷◌ c' t → (c ≡ c') × (s ≡ t)
cons_inj c c' s t p = (cc, cc)

-- No text without an underscore is cut further to the right.
underscore_first :
    (c : Char) (b d e : String)
    → count_char 95 d ≡ 0
    → "_" <> d ≡ (String.◌∷◌ c b) <> ("_" <> e)
    → ⊥
unfolding count_char
underscore_first c b d e h p =
    let q =
      cons_inj "_" c d (b <> ("_" <> e))
        (sym (underscore-cons d) ∙ p ∙ cons-append c b ("_" <> e)) in
    omega (
      arith,
      ap (count_char 95) q.1,
      count_char-append 95 b ("_" <> e),
      ap (count_char 95) (underscore-cons e),
      one_more e,
    )
  where
    one_more : (e : String) → count_char 95 (String.◌∷◌ "_" e) ≡ 1 + count_char 95 e
    one_more e = refl

-- A text is cut in one way at an underscore behind which there is none.
underscore_inj :
    (a b d e : String)
    → count_char 95 d ≡ 0
    → count_char 95 e ≡ 0
    → a <> ("_" <> d) ≡ b <> ("_" <> e)
    → (a ≡ b) × (d ≡ e)
underscore_inj String.[] String.[] d e h k p =
    (refl, append_cancel_left "_" d e (append_cancel_left "" _ _ p))
underscore_inj String.[] (String.◌∷◌ c b) d e h k p =
    absurd (underscore_first c b d e h (sym (nil-append ("_" <> d)) ∙ p))
underscore_inj (String.◌∷◌ c a) String.[] d e h k p =
    absurd (underscore_first c a e d k (sym (nil-append ("_" <> e)) ∙ sym p))
underscore_inj (String.◌∷◌ c a) (String.◌∷◌ c' b) d e h k p =
    let q =
      cons_inj c c' (a <> ("_" <> d)) (b <> ("_" <> e))
        (sym (cons-append c a ("_" <> d)) ∙ p ∙ cons-append c' b ("_" <> e)) in
    let (tails, digits) = underscore_inj a b d e h k q.1 in (cc (q.0, tails), digits)

-- A token determines its label and its number.
token_of_inj :
    (label label' : String) (m n : ℕ)
    → token_of label m ≡ token_of label' n
    → (label ≡ label') × (m ≡ n)
unfolding token_of
token_of_inj label label' m n p =
    let (labels, digits) =
      underscore_inj label label' (decimal m) (decimal n) (count_char-decimal 95 m (omega arith))
        (count_char-decimal 95 n (omega arith)) (append_cancel_left "REDACTED_" _ _ p) in
    (labels, sym (to_number-decimal m) ∙ ap (to_number 0) digits ∙ to_number-decimal n)

-- Each token was made from its label and a number up to the counter of the label, and no two keys share
-- a token.
pub record IsConsistent (r : Registry) : Type 0 where
  pub issued :
      (label value token : String)
      → lookup (label, value) r.seen ≡ some token
      → (n : ℕ) × (token ≡ token_of label n) × (n ≤ get_or (lookup label r.counters) 0)
  pub distinct :
      (j k : String × String) (token : String)
      → lookup j r.seen ≡ some token
      → lookup k r.seen ≡ some token
      → j ≡ k

-- What one request does: `result` is the token and the registry after it.
pub record Grants (label value : String) (r : Registry) (result : String × Registry) : Type 0 where
  pub consistent : IsConsistent result.1
  pub granted : lookup (label, value) result.1.seen ≡ some result.0
  pub kept :
      (k : String × String) (token : String)
      → lookup k r.seen ≡ some token
      → lookup k result.1.seen ≡ some token

get_token-found :
    (label value token : String) (r : Registry)
    → lookup (label, value) r.seen ≡ some token
    → get_token label value r ≡ (token, r)
unfolding get_token
get_token-found label value token r h = rw (get_token, h) refl

get_token-absent :
    (label value : String) (r : Registry)
    → lookup (label, value) r.seen ≡ none
    → (let n = get_or (lookup label r.counters) 0 + 1 in
        get_token label value r ≡ (
          token_of label n,
          record {
            counters = insert label n r.counters;
            seen = insert (label, value) (token_of label n) r.seen;
          },
        ))
unfolding get_token
get_token-absent label value r h = rw (get_token, h) refl

-- The counter of a label is never set back.
counter_grows :
    (j k : String) (n : ℕ) (d : Dict String ℕ)
    → get_or (lookup k d) 0 ≤ n
    → get_or (lookup j d) 0 ≤ get_or (lookup j (insert k n d)) 0
counter_grows j k n d h = ground (arith, lookup-insert j k n d)

module _ (label value : String) (r : Registry) (h : IsConsistent r) where
  abbrev next : ℕ
  next = get_or (lookup label r.counters) 0 + 1

  -- The next token is in nobody's hands.
  unissued : (k : String × String) → lookup k r.seen ≡ some (token_of label next) → ⊥
  unissued (l, v) p =
      let (n, made, bound) = h.issued l v (token_of label next) p in
      let (labels, numbers) = token_of_inj label l next n made in
      omega (arith, numbers, bound, ap (λ x. get_or (lookup x r.counters) 0) labels)

  abbrev after : Registry
  after = record {
    counters = insert label next r.counters;
    seen = insert (label, value) (token_of label next) r.seen;
  }

  after-issued :
      (l v token : String)
      → lookup (l, v) after.seen ≡ some token
      → (n : ℕ) × (token ≡ token_of l n) × (n ≤ get_or (lookup l after.counters) 0)
  after-issued l v token p =
      elim (found_after_insert (l, v) (label, value) (token_of label next) token r.seen p) [
        | inl (key, made) ↦ (
          next,
          sym made ∙ ap (λ x. token_of x next) (sym (ap (λ k. k.0) key)),
          omega (arith, set_to l (ap (λ k. k.0) key)),
        )
        | inr (other, old) ↦
            let (n, made, bound) = h.issued l v token old in
            (n, made, omega (arith, bound, counter_grows l label next r.counters (omega arith)))
      ]
    where
      set_to : (l : String) → l ≡ label → get_or (lookup l after.counters) 0 ≡ next
      set_to l p = ground (arith, lookup-insert l label next r.counters, p)

  after-distinct :
      (j k : String × String) (token : String)
      → lookup j after.seen ≡ some token
      → lookup k after.seen ≡ some token
      → j ≡ k
  after-distinct j k token p q =
      elim (found_after_insert j (label, value) (token_of label next) token r.seen p) [
        | inl (left, made) ↦
            elim (found_after_insert k (label, value) (token_of label next) token r.seen q) [
              | inl (right, _) ↦ left ∙ sym right
              | inr (other, old) ↦ absurd (unissued k (old ∙ ap some (sym made)))
            ]
        | inr (other, old) ↦
            elim (found_after_insert k (label, value) (token_of label next) token r.seen q) [
              | inl (right, made) ↦ absurd (unissued j (old ∙ ap some (sym made)))
              | inr (_, old') ↦ h.distinct j k token old old'
            ]
      ]

  after-kept :
      (k : String × String) (token : String)
      → lookup (label, value) r.seen ≡ none
      → lookup k r.seen ≡ some token
      → lookup k after.seen ≡ some token
  after-kept k token absent p =
      ground (arith, lookup-insert k (label, value) (token_of label next) r.seen, absent, p)

  -- A request keeps the registry consistent, stores the token it returns, and keeps every token.
  pub get_token-Grants : Grants label value r (get_token label value r)
  get_token-Grants = elim (Option-cases (lookup (label, value) r.seen)) [
    | inr (token, found) ↦
        subst (Grants label value r) (sym (get_token-found label value token r found))
          (record { consistent = h; granted = found; kept = λ k t p. p })
    | inl absent ↦
        subst (Grants label value r) (sym (get_token-absent label value r absent)) (record {
          consistent = record { issued = after-issued; distinct = after-distinct };
          granted =
              ground
                (arith, lookup-insert (label, value) (label, value) (token_of label next) r.seen);
          kept = λ k t. after-kept k t absent;
        })
  ]

pub new_registry-IsConsistent : IsConsistent new_registry
unfolding lookup
new_registry-IsConsistent = record { issued = λ l v t p. cc p; distinct = λ j k t p. cc p }
