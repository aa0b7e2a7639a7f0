-- ===== src/Base/Slices.antt =====
-- Python's slices, searches and splits of texts.
pub mod Laws
use Prim.Native.Char.{Char, code}
use yoinkc.Base.{
  ℕ, zero, suc, ◌+◌, String, ◌<>◌, Bool, true, false, not, ◌&&◌, ◌||◌, Option, none, some, List, [],
  ◌∷◌, leb, ◌==◌, nat_eq, if◌then◌else◌,
}
use yoinkc.Base.Text.{is_empty, is_space, rstrip, lstrip_if, starts_with, split_parts}

-- s[:n], s[n:]
unfoldable pub text_before : ℕ → String → String
text_before zero s = ""
text_before (suc n) String.[] = ""
text_before (suc n) (String.◌∷◌ c s) = String.◌∷◌ c (text_before n s)

unfoldable pub text_after : ℕ → String → String
text_after zero s = s
text_after (suc n) String.[] = ""
text_after (suc n) (String.◌∷◌ c s) = text_after n s

-- len(s)
unfoldable pub text_length : String → ℕ
text_length String.[] = 0
text_length (String.◌∷◌ c s) = suc (text_length s)

-- s.strip(), s.lstrip()
unfoldable pub lstrip : String → String
unfolding lstrip_if is_space
lstrip = lstrip_if is_space

unfoldable pub strip : String → String
unfolding rstrip lstrip
strip s = rstrip (lstrip s)

-- s.rstrip(chars)
unfoldable pub rstrip_if : (Char → Bool) → String → String
rstrip_if p String.[] = String.[]
rstrip_if p (String.◌∷◌ c s) =
    let rest = rstrip_if p s in if is_empty rest && p c then String.[] else String.◌∷◌ c rest

-- needle in s
unfoldable pub holds_text : String → String → Bool
unfolding starts_with
holds_text needle String.[] = starts_with String.[] needle
holds_text needle (String.◌∷◌ c s) = starts_with (String.◌∷◌ c s) needle || holds_text needle s

-- s.endswith(suffix)
unfoldable pub ends_with : String → String → Bool
unfolding starts_with
ends_with String.[] suffix = is_empty suffix
ends_with (String.◌∷◌ c s) suffix = same_text (String.◌∷◌ c s) suffix || ends_with s suffix
  where
    same_text : String → String → Bool
    same_text t u = starts_with t u && starts_with u t

-- s.lower(): the letters of ASCII
lower_char : String → String → Char → Char
lower_char (String.◌∷◌ u us) (String.◌∷◌ l ls) c =
    if code c == code u then l else lower_char us ls c
lower_char _ _ c = c

unfoldable pub lower : String → String
unfolding lower_char nat_eq
lower String.[] = String.[]
lower (String.◌∷◌ c s) =
    String.◌∷◌ (lower_char "ABCDEFGHIJKLMNOPQRSTUVWXYZ" "abcdefghijklmnopqrstuvwxyz" c) (lower s)

-- A character at which `splitlines` breaks.
unfoldable pub breaks_line : Char → Bool
unfolding nat_eq
breaks_line ch =
    let c = code ch in
    (leb 10 c && leb c 13) || (leb 28 c && leb c 30) || c == 133 || c == 8232 || c == 8233

extend_first : Char → List String → List String
extend_first c [] = String.◌∷◌ c String.[] ∷ []
extend_first c (line ∷ lines) = String.◌∷◌ c line ∷ lines

-- s.splitlines(): a return and a newline are one break
unfoldable pub split_lines : String → List String
unfolding breaks_line extend_first starts_with
split_lines String.[] = []
split_lines (String.◌∷◌ c s) =
    let lines = split_lines s in
    if breaks_line c
    then if code c == 13 && starts_with s "\n" then lines else "" ∷ lines
    else extend_first c lines

-- s.split(): the words between whitespace. The flag says that a word is open.
word_parts : String → String × List String
word_parts String.[] = ("", [])
word_parts (String.◌∷◌ c s) =
    let (word, words) = word_parts s in
    let closed = if is_empty word then words else word ∷ words in
    if is_space c then ("", closed) else (String.◌∷◌ c word, words)

unfoldable pub split_words : String → List String
unfolding word_parts is_space
split_words s = let (word, words) = word_parts s in if is_empty word then words else word ∷ words

-- s.split(sep, 1): what stands before the first separator and behind it, if there is one
unfoldable pub split_once : ℕ → String → Option (String × String)
unfolding nat_eq
split_once sep String.[] = none
split_once sep (String.◌∷◌ c s) =
    let later : Option (String × String) = elim (split_once sep s) [
      | none ↦ none
      | some (before, behind) ↦ some (String.◌∷◌ c before, behind)
    ] in
    if code c == sep then some ("", s) else later

-- s.rsplit(sep, 1)
unfoldable pub split_last : ℕ → String → Option (String × String)
unfolding nat_eq
split_last sep String.[] = none
split_last sep (String.◌∷◌ c s) = elim (split_last sep s) [
  | none ↦ if code c == sep then some ("", s) else none
  | some (before, behind) ↦ some (String.◌∷◌ c before, behind)
]

-- The part behind the last separator; all of it where there is none.
unfoldable pub last_part : ℕ → String → String
unfolding split_last
last_part sep s = elim (split_last sep s) [ none ↦ s | some (before, behind) ↦ behind ]

-- How often a character stands in a text.
unfoldable pub count_char : ℕ → String → ℕ
unfolding nat_eq
count_char n String.[] = 0
count_char n (String.◌∷◌ c s) = (if code c == n then 1 else 0) + count_char n s
