-- ===== src/Redact/Registry.antt =====
-- `_CounterRegistry` of redact.py: a token for each pair of a label and a secret value.
pub mod Tokens
use yoinkc.Base.{
  ℕ, ◌+◌, String, ◌<>◌, Option, none, some, List, [], ◌∷◌, string_eq, pair_eq, ◌==◌, if◌then◌else◌,
}
use yoinkc.Base.Dict.{Dict, lookup, insert, get_or}
use yoinkc.Base.Text.{decimal}

pub record Registry : Type 0 where
  pub counters : Dict String ℕ
  pub seen : Dict (String × String) String

-- `__init__`
abbrev pub new_registry : Registry
new_registry = record { counters = []; seen = [] }

-- f"REDACTED_{type_label}_{n}"
unfoldable pub token_of : String → ℕ → String
unfolding decimal
token_of type_label n = "REDACTED_" <> (type_label <> ("_" <> decimal n))

-- `get_token`
unfoldable pub get_token : String → String → Registry → String × Registry
unfolding lookup insert token_of string_eq pair_eq
get_token type_label value r = elim (lookup (type_label, value) r.seen) [
  | some token ↦ (token, r)
  | none ↦
      let n = get_or (lookup type_label r.counters) 0 + 1 in
      let token = token_of type_label n in
      (
        token,
        record {
          counters = insert type_label n r.counters;
          seen = insert (type_label, value) token r.seen;
        },
      )
]
