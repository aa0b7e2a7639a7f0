-- ===== src/Redact/Texts/Splice.antt =====
-- The replacement of spans from the last to the first, against a pass from left to right.
use text.Mathlib.TextLemmas.{append_assoc, nil-append}
use yoinkc.Base.{ℕ, ◌+◌, ◌-◌, ◌≤◌, String, ◌<>◌, ◌≡◌, sym, ◌∙◌, List, [], ◌∷◌, arith}
use yoinkc.Base.Slices.{text_before, text_after, text_length}
use yoinkc.Base.Slices.Laws.{
  text_before-append-text_after, text_after-text_after, text_before-append-text_before,
  text_before-append, text_after-append,
}
use yoinkc.Redact.Texts.{Span, splice, splice_all}

-- The text from a position on: what stands before each span is copied, and the span replaced.
unfoldable pub assembled : ℕ → List Span → String → String
unfolding text_before text_after
assembled position [] rest = rest
assembled position (sp ∷ spans) rest =
    text_before (sp.start - position) rest
    <> (sp.replacement <> assembled sp.stop spans (text_after (sp.stop - position) rest))

-- Spans from a position on, each behind the one before it, that end within `size` characters.
abbrev pub IsOrdered : ℕ → ℕ → List Span → Type 0
IsOrdered position size [] = position ≤ size
IsOrdered position size (sp ∷ spans) =
    (position ≤ sp.start) × (sp.start ≤ sp.stop) × IsOrdered sp.stop size spans

IsOrdered-le :
    (position size : ℕ) (spans : List Span) → IsOrdered position size spans → position ≤ size
IsOrdered-le position size [] h = h
IsOrdered-le position size (sp ∷ spans) h = omega (arith, IsOrdered-le sp.stop size spans)

back_at : (m n : ℕ) → m ≤ n → m + (n - m) ≡ n
back_at m n h = omega arith

splice_all-from :
    (position : ℕ) (spans : List Span) (out : String)
    → IsOrdered position (text_length out) spans
    → splice_all spans out
      ≡ text_before position out <> assembled position spans (text_after position out)
unfolding splice_all splice assembled
splice_all-from position [] out h = sym (text_before-append-text_after position out)
splice_all-from position (sp ∷ spans) out (first, ordered, later) =
    let inner = splice_all-from sp.stop spans out later in
    let within = IsOrdered-le sp.stop (text_length out) spans later in
    let rest = text_after position out in
    let copied = text_before (sp.start - position) rest in
    let tail = assembled sp.stop spans (text_after sp.stop out) in
    cc (
      inner,
      text_before-append sp.start sp.stop out tail ordered within,
      text_after-append sp.stop out tail within,
      text_after-text_after position (sp.stop - position) out,
      text_before-append-text_before position (sp.start - position) out,
      append_assoc (text_before position out) copied (sp.replacement <> tail),
      back_at position sp.start first,
      back_at position sp.stop (omega (arith, first, ordered)),
    )

-- Where the spans of a text are ordered and end within it, their replacement from the last to the first is the text
-- assembled from left to right.
pub splice_all-assembled :
    (spans : List Span) (out : String)
    → IsOrdered 0 (text_length out) spans
    → splice_all spans out ≡ assembled 0 spans out
unfolding text_before text_after
splice_all-assembled spans out h =
    splice_all-from 0 spans out h ∙ nil-append (assembled 0 spans out)
