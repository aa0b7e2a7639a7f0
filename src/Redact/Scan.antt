-- ===== src/Redact/Scan.antt =====
-- What the steps of `redact_snapshot` share: the findings so far and the registry.
pub mod Runs
use yoinkc.Base.{String, Bool, true, false, ◌||◌, List, [], ◌∷◌, ◌++◌}
use yoinkc.Schema.{Redaction, RedactionFinding}
use yoinkc.Redact.Registry.{Registry, get_token}

pub record Scan : Type 0 where
  pub redactions : List Redaction
  pub registry : Registry

abbrev pub Redactor : Type 0 → Type 0
Redactor A = Scan → A × Scan

unfoldable pub pure : {A : Type 0} → A → Redactor A
pure a s = (a, s)

infixl 10 ◌>>=◌ ◌>>◌
unfoldable pub ◌>>=◌ : {A B : Type 0} → Redactor A → (A → Redactor B) → Redactor B
unfolding pure
◌>>=◌ m f s = f (m s).0 (m s).1

abbrev pub ◌>>◌ : {B : Type 0} → Redactor (Unit {0}) → Redactor B → Redactor B
m >> k = m >>= λ _. k

-- redactions.append(finding)
unfoldable pub report : RedactionFinding → Redactor (Unit {0})
report f s = (tt, record s { redactions = s.redactions ++ (Redaction.finding f ∷ []) })

-- registry.get_token(type_label, value)
unfoldable pub token_for : String → String → Redactor String
unfolding get_token
token_for type_label value s =
    let (token, registry) = get_token type_label value s.registry in
    (token, record s { registry = registry })

-- A loop over items, each of which becomes an item and may be changed: the new list, and whether an
-- item changed.
unfoldable pub each_item :
    {A : Type 0} → (A → Redactor (A × Bool)) → List A → Redactor (List A × Bool)
unfolding ◌>>=◌
each_item f [] = pure ([], false)
each_item f (a ∷ items) = do
  (a', changed) ← f a
  (items', any_changed) ← each_item f items
  pure (a' ∷ items', changed || any_changed)

-- `if changed: updates[…] = new_items`
abbrev pub if_changed : {A : Type 0} → List A → List A × Bool → List A
if_changed old (new, true) = new
if_changed old (new, false) = old
