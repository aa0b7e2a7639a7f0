-- ===== src/Redact/Runs.antt =====
-- The steps of `redact_snapshot` as runs of a redactor.
use yoinkc.Base.{String, ◌<>◌, List, [], ◌∷◌, ◌||◌}
use yoinkc.Redact.Scan.{report, token_for}
use yoinkc.Redact.Scan.Runs.{
  Runs, runs_rules, Runs-pure, Runs-bind, Runs-if, Runs-report, Runs-token_for,
}
use yoinkc.Redact.Texts.{
  Regex, Match, inline_finding, prefix_of, line_of, secret_of, is_skipped, redact_matches,
  redact_with, redact_text,
}
use yoinkc.Redact.Shadow.{redact_shadow_entry, shadow_fields, is_noop_hash}
use yoinkc.Base.Text.{starts_with, split}

module _ (re : Regex) where
  pub redact_matches-Runs :
      (type_label path source out : String) (matches : List Match)
      → Runs (redact_matches re type_label path source out matches)
  unfolding redact_matches
  redact_matches-Runs l p s o [] = search runs_rules
  redact_matches-Runs l p s o (m ∷ ms) =
      let rest = redact_matches-Runs l p s o ms in
      Runs-if (is_skipped l o m) _ _ rest (
        Runs-bind (token_for l (secret_of l m)) _ (Runs-token_for l (secret_of l m)) λ token.
          Runs-bind (report (inline_finding p s l (prefix_of l m <> token) (line_of s o m.start))) _
            (Runs-report _)
            λ _. Runs-bind (redact_matches re l p s o ms) _ rest λ spans. Runs-pure _)

  redact_with-Runs :
      (patterns : List (String × String)) (path source out : String)
      → Runs (redact_with re patterns path source out)
  unfolding redact_with
  redact_with-Runs [] p s o = search runs_rules
  redact_with-Runs ((pattern, label) ∷ patterns) p s o =
      search (runs_rules, redact_matches-Runs, redact_with-Runs patterns)

  pub redact_text-Runs : (text path source : String) → Runs (redact_text re text path source)
  unfolding redact_text
  redact_text-Runs t p s = search redact_with-Runs

shadow_fields-Runs : (line : String) (fields : List String) → Runs (shadow_fields line fields)
unfolding shadow_fields
shadow_fields-Runs line [] = search runs_rules
shadow_fields-Runs line (user ∷ []) = search runs_rules
shadow_fields-Runs line (user ∷ raw_hash ∷ rest) =
    Runs-if (starts_with raw_hash "REDACTED_" || is_noop_hash raw_hash) _ _ (Runs-pure line)
      (search runs_rules)

pub redact_shadow_entry-Runs : (line : String) → Runs (redact_shadow_entry line)
unfolding redact_shadow_entry
redact_shadow_entry-Runs line = shadow_fields-Runs line (split 58 line)
