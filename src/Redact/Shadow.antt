-- ===== src/Redact/Shadow.antt =====
-- `_redact_shadow_entry` of redact.py, with a registry.
pub mod Again
use Prim.Native.Char.{code}
use yoinkc.Base.{
  ℕ, String, ◌<>◌, Bool, true, false, ◌||◌, some, none, List, [], ◌∷◌, contains, ◌==◌, nat_eq,
  string_eq, if◌then◌else◌,
}
use yoinkc.Base.Text.{is_empty, lstrip_if, starts_with, split, join}
use yoinkc.Schema.{RedactionFinding}
use yoinkc.Redact.Patterns.{shadow_noop_hashes}
use yoinkc.Redact.Scan.{Redactor, pure, ◌>>=◌, ◌>>◌, report, token_for}

-- A locked or disabled marker.
unfoldable pub is_noop_hash : String → Bool
unfolding lstrip_if contains nat_eq string_eq
is_noop_hash raw_hash =
    let stripped = lstrip_if (λ c. code c == 33) raw_hash in
    contains shadow_noop_hashes stripped || is_empty stripped

abbrev pub shadow_finding : String → String → RedactionFinding
shadow_finding user replacement = record {
  path = "users:shadow/" <> user;
  source = "shadow";
  kind = "inline";
  pattern = "SHADOW_HASH";
  remediation = "value-removed";
  line = none;
  replacement = some replacement;
  detection_method = "pattern";
  confidence = none;
}

unfoldable pub shadow_fields : String → List String → Redactor String
shadow_fields line (user ∷ raw_hash ∷ rest) =
    let redacted : Redactor String = do
      replacement ← token_for "SHADOW_HASH" raw_hash
      report (shadow_finding user replacement)
      pure (join ":" (user ∷ replacement ∷ rest))
    in if starts_with raw_hash "REDACTED_" || is_noop_hash raw_hash then pure line else redacted
shadow_fields line _ = pure line

-- `_redact_shadow_entry`
unfoldable pub redact_shadow_entry : String → Redactor String
unfolding shadow_fields token_for is_noop_hash starts_with split join
redact_shadow_entry line = shadow_fields line (split 58 line)
