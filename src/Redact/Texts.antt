-- ===== src/Redact/Texts.antt =====
-- `_is_excluded_path`, `_remediation_for_excluded` and `_redact_text` of redact.py, with a registry.
-- The matches of Python's `re` are a parameter.
pub mod Replaced
pub mod Splice
use Prim.Native.Char.{code}
use yoinkc.Base.{
  ℕ, ◌+◌, String, ◌<>◌, Bool, true, false, not, ◌&&◌, ◌||◌, Option, none, some, List, [], ◌∷◌, ◌++◌,
  contains, any, leb, ◌==◌, nat_eq, string_eq, if◌then◌else◌,
}
use yoinkc.Base.Text.{is_empty, lstrip_if, starts_with, split_parts}
use yoinkc.Base.Slices.{
  text_before, text_after, lstrip, strip, holds_text, lower, last_part, count_char,
}
use yoinkc.Schema.{RedactionFinding}
use yoinkc.Redact.Patterns.{
  excluded_paths, redact_patterns, excluded_remediation, false_positive_values,
}
use yoinkc.Redact.Scan.{Scan, Redactor, pure, ◌>>=◌, ◌>>◌, report, token_for}

-- A match object: its span, the text of group 0, `lastindex` (0 for None), group 1 and, where
-- `lastindex` is 2 or more, group 2.
pub record Match : Type 0 where
  pub start : ℕ
  pub stop : ℕ
  pub whole : String
  pub lastindex : ℕ
  pub group_one : Option String
  pub group_two : String

-- `re.finditer(pattern, text, re.IGNORECASE | re.DOTALL)` and `re.search(pattern, text)`
pub record Regex : Type 0 where
  pub finditer : String → String → List Match
  pub search : String → String → Bool

-- "/" + path.lstrip("/")
unfoldable pub normalised : String → String
unfolding lstrip_if nat_eq
normalised path = "/" <> lstrip_if (λ c. code c == 47) path

-- pat.replace("*", ".*")
unfoldable pub with_dots : String → String
unfolding nat_eq
with_dots String.[] = ""
with_dots (String.◌∷◌ c s) = (if code c == 42 then ".*" else String.◌∷◌ c "") <> with_dots s

-- The body of the test of a comment line: the line up to the match.
unfoldable pub is_comment_line : String → ℕ → Bool
unfolding last_part text_before lstrip starts_with
is_comment_line text match_start =
    let prefix = lstrip (last_part 10 (text_before match_start text)) in
    starts_with prefix "#" || starts_with prefix ";" || starts_with prefix "!"

-- What stands for a match: a span of the text and its replacement.
pub record Span : Type 0 where
  pub start : ℕ
  pub stop : ℕ
  pub replacement : String

-- out[:start] + replacement + out[end:]
unfoldable pub splice : Span → String → String
unfolding text_before text_after
splice sp out = text_before sp.start out <> (sp.replacement <> text_after sp.stop out)

-- `for start, end, replacement in reversed(spans)`
unfoldable pub splice_all : List Span → String → String
unfolding splice
splice_all [] out = out
splice_all (sp ∷ spans) out = splice sp (splice_all spans out)

-- The secret of a match.
unfoldable pub secret_of : String → Match → String
unfolding string_eq
secret_of type_label m =
    if type_label == "PRIVATE_KEY"
    then m.whole
    else if leb 2 m.lastindex
    then m.group_two
    else m.whole

-- A match that is left alone: on a comment line, or a value that is no password.
unfoldable pub is_skipped : String → String → Match → Bool
unfolding is_comment_line secret_of contains lower strip string_eq
is_skipped type_label out m =
    is_comment_line out m.start
    || (type_label == "PASSWORD"
        && contains false_positive_values (lower (strip (secret_of type_label m))))

-- Group 1, where it holds the assignment.
unfoldable pub prefix_of : String → Match → String
unfolding string_eq holds_text
prefix_of type_label m =
    if type_label == "PRIVATE_KEY" || not (leb 2 m.lastindex) then "" else elim m.group_one [
      | none ↦ ""
      | some prefix ↦ if holds_text "=" prefix || holds_text ":" prefix then prefix else ""
    ]

unfoldable pub line_of : String → String → ℕ → Option ℕ
unfolding count_char text_before string_eq
line_of source out start =
    if source == "file" || source == "diff"
    then some (count_char 10 (text_before start out) + 1)
    else none

abbrev pub inline_finding : String → String → String → String → Option ℕ → RedactionFinding
inline_finding path source type_label replacement line = record {
  path = path;
  source = source;
  kind = "inline";
  pattern = type_label;
  remediation = "value-removed";
  line = line;
  replacement = some replacement;
  detection_method = "pattern";
  confidence = none;
}

module _ (re : Regex) where
  -- `_is_excluded_path`
  unfoldable pub is_excluded_path : String → Bool
  unfolding any with_dots normalised
  is_excluded_path path = any (λ pat. re.search (with_dots pat) (normalised path)) excluded_paths

  first_remediation : List (String × String) → String → String
  first_remediation [] path = "provision"
  first_remediation ((pattern, remediation) ∷ rest) path =
      if re.search pattern path then remediation else first_remediation rest path

  -- `_remediation_for_excluded`
  unfoldable pub remediation_for_excluded : String → String
  unfolding first_remediation normalised
  remediation_for_excluded path = first_remediation excluded_remediation (normalised path)

  -- The body of the loop over the matches of a pattern.
  unfoldable pub redact_matches :
      String → String → String → String → List Match → Redactor (List Span)
  unfolding is_skipped token_for secret_of prefix_of line_of
  redact_matches type_label path source out [] = pure []
  redact_matches type_label path source out (m ∷ matches) =
      let redacted : Redactor (List Span) = do
        token ← token_for type_label (secret_of type_label m)
        let replacement = prefix_of type_label m <> token
        report (inline_finding path source type_label replacement (line_of source out m.start))
        spans ← redact_matches type_label path source out matches
        pure (record { start = m.start; stop = m.stop; replacement = replacement } ∷ spans)
      in let skipped = redact_matches type_label path source out matches in
        if is_skipped type_label out m then skipped else redacted

  unfoldable pub redact_with : List (String × String) → String → String → String → Redactor String
  unfolding redact_matches splice_all
  redact_with [] path source out = pure out
  redact_with ((pattern, type_label) ∷ patterns) path source out = do
    spans ← redact_matches type_label path source out (re.finditer pattern out)
    redact_with patterns path source (splice_all spans out)

  -- `_redact_text`
  unfoldable pub redact_text : String → String → String → Redactor String
  unfolding redact_with
  redact_text text path source = redact_with redact_patterns path source text
