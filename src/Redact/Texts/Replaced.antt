-- ===== src/Redact/Texts/Replaced.antt =====
-- What the loop over the matches of a pattern puts in their place.
use yoinkc.Base.{
  String, ◌<>◌, ◌≡◌, refl, true, false, not, some, List, [], ◌∷◌, map, keep_if, Bool-cases, inl,
  inr, pair_eq, string_eq,
}
use yoinkc.Base.Dict.{lookup, get_or}
use yoinkc.Redact.Registry.{Registry}
use yoinkc.Redact.Registry.Tokens.{IsConsistent, get_token-Grants}
use yoinkc.Redact.Scan.{Scan, pure, ◌>>=◌, report, token_for}
use yoinkc.Redact.Scan.Runs.{Run-keeps}
use yoinkc.Redact.Runs.{redact_matches-Runs}
use yoinkc.Redact.Texts.{
  Regex, Match, Span, is_skipped, secret_of, prefix_of, line_of, inline_finding, redact_matches,
}

-- A match's span with the token that a registry holds for its secret.
unfoldable pub span_for : String → Registry → Match → Span
span_for type_label r m = record {
  start = m.start;
  stop = m.stop;
  replacement =
      prefix_of type_label m <> get_or (lookup (type_label, secret_of type_label m) r.seen) "";
}

module _ (re : Regex) (type_label path source out : String) where
  abbrev spans_after : List Match → Scan → List Span × Scan
  spans_after matches s = redact_matches re type_label path source out matches s

  -- The state in which the rest of the loop starts after a match that is replaced.
  abbrev reported : Match → Scan → Scan
  reported m s =
      let (token, s') = token_for type_label (secret_of type_label m) s in
      (report
        (inline_finding path source type_label (prefix_of type_label m <> token)
          (line_of source out m.start))
        s').1

  redact_matches-skipped :
      (m : Match) (matches : List Match) (s : Scan)
      → is_skipped type_label out m ≡ true
      → spans_after (m ∷ matches) s ≡ spans_after matches s
  unfolding redact_matches
  redact_matches-skipped m matches s h = rw h refl

  redact_matches-replaced :
      (m : Match) (matches : List Match) (s : Scan)
      → is_skipped type_label out m ≡ false
      → (let (spans, end) = spans_after matches (reported m s) in
          let token = (token_for type_label (secret_of type_label m) s).0 in
          spans_after (m ∷ matches) s ≡ (
            record { start = m.start; stop = m.stop; replacement = prefix_of type_label m <> token }
                ∷ spans,
            end,
          ))
  unfolding redact_matches ◌>>=◌ pure
  redact_matches-replaced m matches s h = rw h refl

  token_after :
      (m : Match) (matches : List Match) (s : Scan)
      → IsConsistent s.registry
      → lookup
          (type_label, secret_of type_label m)
          (spans_after matches (reported m s)).1.registry.seen
        ≡ some (token_for type_label (secret_of type_label m) s).0
  unfolding token_for report
  token_after m matches s h =
      let grants = get_token-Grants type_label (secret_of type_label m) s.registry h in
      Run-keeps (type_label, secret_of type_label m) _
        ((redact_matches-Runs re type_label path source out matches).from (reported m s))
        grants.consistent grants.granted

  reported-IsConsistent :
      (m : Match) (s : Scan) → IsConsistent s.registry → IsConsistent (reported m s).registry
  unfolding token_for report
  reported-IsConsistent m s h =
      (get_token-Grants type_label (secret_of type_label m) s.registry h).consistent

  span_for-holds :
      (m : Match) (r : Registry) (token : String)
      → lookup (type_label, secret_of type_label m) r.seen ≡ some token
      → span_for type_label r m
        ≡ record { start = m.start; stop = m.stop; replacement = prefix_of type_label m <> token }
  unfolding span_for
  span_for-holds m r token h = rw h refl

  -- From a consistent registry, the spans are those of the matches that are not skipped, in order, each with its
  -- prefix and the token that the registry after the loop holds for its secret.
  pub redact_matches-spans :
      (matches : List Match) (s : Scan)
      → IsConsistent s.registry
      → (spans_after matches s).0
        ≡ map
            (span_for type_label (spans_after matches s).1.registry)
            (keep_if (λ m. not (is_skipped type_label out m)) matches)
  unfolding redact_matches pure keep_if
  redact_matches-spans [] s h = refl
  redact_matches-spans (m ∷ matches) s h = elim (Bool-cases (is_skipped type_label out m)) [
    | inl skipped ↦
        rw (redact_matches-skipped m matches s skipped, skipped) (redact_matches-spans matches s h)
    | inr replaced ↦
        let rest = redact_matches-spans matches (reported m s) (reported-IsConsistent m s h) in
        rw (redact_matches-replaced m matches s replaced, replaced)
          (cc (
            rest,
            span_for-holds m (spans_after matches (reported m s)).1.registry _
                (token_after m matches s h),
          ))
  ]
