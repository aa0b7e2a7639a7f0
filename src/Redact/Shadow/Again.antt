-- ===== src/Redact/Shadow/Again.antt =====
-- A second redaction of a shadow entry.
use mathlib.Core.Path.{subst}
use yoinkc.Base.{
  ℕ, String, ◌<>◌, ◌≡◌, refl, true, ◌⊎◌, ◌||◌, Bool-cases, inl, inr, List, ◌∷◌, All, arith, pair_eq,
  nat_eq, string_eq,
}
use yoinkc.Base.Text.{starts_with, split, join, decimal}
use yoinkc.Base.Text.Fields.{starts_with-append, split_parts-join, split-free}
use yoinkc.Base.Slices.{count_char}
use yoinkc.Base.Decimal.{count_char-decimal, count_char-append}
use yoinkc.Redact.Registry.{token_of}
use yoinkc.Redact.Registry.Tokens.{IsConsistent, get_token-Grants}
use yoinkc.Redact.Scan.{Scan, pure, ◌>>=◌, token_for}
use yoinkc.Redact.Shadow.{is_noop_hash, shadow_fields, redact_shadow_entry}

token_of-redacted : (label : String) (n : ℕ) → starts_with (token_of label n) "REDACTED_" ≡ true
unfolding token_of
token_of-redacted label n = starts_with-append "REDACTED_" (label <> ("_" <> decimal n))

token_of-free : (n : ℕ) → count_char 58 (token_of "SHADOW_HASH" n) ≡ 0
unfolding token_of count_char nat_eq
token_of-free n = omega (
  arith,
  count_char-append 58 "REDACTED_" ("SHADOW_HASH" <> ("_" <> decimal n)),
  count_char-append 58 "SHADOW_HASH" ("_" <> decimal n),
  count_char-append 58 "_" (decimal n),
  count_char-decimal 58 n (omega arith),
  literals,
)
  where
    literals :
        (count_char 58 "REDACTED_" ≡ 0)
        × (count_char 58 "SHADOW_HASH" ≡ 0)
        × (count_char 58 "_" ≡ 0)
    literals = (refl, refl, refl)

token_for-made :
    (raw_hash : String) (s : Scan)
    → IsConsistent s.registry
    → (n : ℕ) × ((token_for "SHADOW_HASH" raw_hash s).0 ≡ token_of "SHADOW_HASH" n)
unfolding token_for
token_for-made raw_hash s h =
    let grants = get_token-Grants "SHADOW_HASH" raw_hash s.registry h in
    let (n, made, bound) = grants.consistent.issued "SHADOW_HASH" raw_hash _ grants.granted in
    (n, made)

-- What a redaction makes of the fields of an entry: nothing, or a token in the second field.
abbrev LeavesLine : String → List String → Type 0
LeavesLine line fields = (t : Scan) → shadow_fields line fields t ≡ (line, t)

record PutsToken (fields : List String) (result : String) : Type 0 where
  user : String
  raw_hash : String
  token : String
  rest : List String
  fields_are : fields ≡ user ∷ raw_hash ∷ rest
  result_is : result ≡ join ":" (user ∷ token ∷ rest)
  is_token : starts_with token "REDACTED_" ≡ true
  is_free : count_char 58 token ≡ 0

shadow_fields-cases :
    (line : String) (fields : List String) (s : Scan)
    → IsConsistent s.registry
    → LeavesLine line fields ⊎ PutsToken fields (shadow_fields line fields s).0
unfolding shadow_fields pure join ◌>>=◌
shadow_fields-cases line (user ∷ raw_hash ∷ rest) s h =
    elim (Bool-cases (starts_with raw_hash "REDACTED_" || is_noop_hash raw_hash)) [
      | inl left ↦ inl (λ t. rw left refl)
      | inr taken ↦ inr (record {
        user = user;
        raw_hash = raw_hash;
        token = (token_for "SHADOW_HASH" raw_hash s).0;
        rest = rest;
        fields_are = refl;
        result_is = rw taken refl;
        is_token =
            let (n, made) = token_for-made raw_hash s h in
            rw made (token_of-redacted "SHADOW_HASH" n);
        is_free = let (n, made) = token_for-made raw_hash s h in rw made (token_of-free n);
      })
    ]
shadow_fields-cases line _ s h = inl λ t. refl

token_left :
    (line user token : String) (rest : List String) (t : Scan)
    → starts_with token "REDACTED_" ≡ true
    → shadow_fields line (user ∷ token ∷ rest) t ≡ (line, t)
unfolding shadow_fields pure
token_left line user token rest t h = rw h refl

split_back :
    (user token : String) (rest : List String)
    → All (λ f. count_char 58 f ≡ 0) (user ∷ token ∷ rest)
    → split 58 (join ":" (user ∷ token ∷ rest)) ≡ user ∷ token ∷ rest
unfolding split
split_back user token rest h = cc (split_parts-join ":" user (token ∷ rest) h)

-- From a consistent registry, a redacted entry is left alone by a second redaction, in whatever state that starts,
-- and the state with it.
pub redact_shadow_entry-again :
    (line : String) (s t : Scan)
    → IsConsistent s.registry
    → redact_shadow_entry (redact_shadow_entry line s).0 t ≡ ((redact_shadow_entry line s).0, t)
unfolding redact_shadow_entry
redact_shadow_entry-again line s t h = elim (shadow_fields-cases line (split 58 line) s h) [
  | inl left ↦ rw (left s) (left t)
  | inr put ↦
      let fields : All (λ f. count_char 58 f ≡ 0) (put.user ∷ put.raw_hash ∷ put.rest) =
        subst (All (λ f. count_char 58 f ≡ 0)) put.fields_are (split-free 58 line) in
      cc (
        put.result_is,
        split_back put.user put.token put.rest (fields.0, (put.is_free, fields.1.1)),
        token_left (join ":" (put.user ∷ put.token ∷ put.rest)) put.user put.token put.rest t
            put.is_token,
      )
]
