-- ===== src/Base/Text.antt =====
-- Python's methods on texts. A text is walked character by character.
pub mod Fields
use Prim.Native.Char.{Char, code}
use Prim.Native.Nat.{◌%◌}
use yoinkc.Base.{
  ℕ, zero, suc, ◌/◌, String, ◌<>◌, Bool, true, false, ◌&&◌, ◌||◌, List, [], ◌∷◌, ltb, leb, ◌==◌,
  nat_eq, if◌then◌else◌,
}

-- The code points of a text.
abbrev pub codes : String → List ℕ
codes String.[] = []
codes (String.◌∷◌ c s) = code c ∷ codes s

abbrev pub is_empty : String → Bool
is_empty String.[] = true
is_empty (String.◌∷◌ c s) = false

-- str.isspace of one character
unfoldable pub is_space : Char → Bool
is_space ch =
    let c = code ch in
    (leb 9 c && leb c 13)
    || (leb 28 c && leb c 32)
    || c == 133
    || c == 160
    || c == 5760
    || (leb 8192 c && leb c 8202)
    || c == 8232
    || c == 8233
    || c == 8239
    || c == 8287
    || c == 12288

-- s.rstrip()
unfoldable pub rstrip : String → String
unfolding is_space
rstrip String.[] = String.[]
rstrip (String.◌∷◌ c s) =
    let rest = rstrip s in if is_empty rest && is_space c then String.[] else String.◌∷◌ c rest

-- s.lstrip(chars), for the characters that pass a test
unfoldable pub lstrip_if : (Char → Bool) → String → String
lstrip_if p String.[] = String.[]
lstrip_if p (String.◌∷◌ c s) = let rest = lstrip_if p s in if p c then rest else String.◌∷◌ c s

-- s.startswith(prefix)
unfoldable pub starts_with : String → String → Bool
unfolding nat_eq
starts_with s String.[] = true
starts_with String.[] (String.◌∷◌ d p) = false
starts_with (String.◌∷◌ c s) (String.◌∷◌ d p) = code c == code d && starts_with s p

-- What stands before the first separator, and the parts behind it.
unfoldable pub split_parts : ℕ → String → String × List String
unfolding nat_eq
split_parts sep String.[] = (String.[], [])
split_parts sep (String.◌∷◌ c s) =
    let (first, rest) = split_parts sep s in
    if code c == sep then (String.[], first ∷ rest) else (String.◌∷◌ c first, rest)

-- s.split(sep), for a separator of one character, given by its code
unfoldable pub split : ℕ → String → List String
unfolding split_parts
split sep s = let (first, rest) = split_parts sep s in first ∷ rest

-- sep.join(parts)
unfoldable pub join : String → List String → String
join sep [] = ""
join sep (x ∷ []) = x
join sep (x ∷ y ∷ xs) = x <> (sep <> join sep (y ∷ xs))

-- str(n), the decimal digits, the last one first split off; the fuel `n + 1` is enough
unfoldable pub digit : ℕ → String
digit zero = "0"
digit (suc zero) = "1"
digit (suc (suc zero)) = "2"
digit (suc (suc (suc zero))) = "3"
digit (suc (suc (suc (suc zero)))) = "4"
digit (suc (suc (suc (suc (suc zero))))) = "5"
digit (suc (suc (suc (suc (suc (suc zero)))))) = "6"
digit (suc (suc (suc (suc (suc (suc (suc zero))))))) = "7"
digit (suc (suc (suc (suc (suc (suc (suc (suc zero)))))))) = "8"
digit _ = "9"

unfoldable pub decimal_digits : ℕ → ℕ → String
decimal_digits zero n = ""
decimal_digits (suc fuel) n =
    let more = decimal_digits fuel (n / 10) <> digit (n % 10) in if ltb n 10 then digit n else more

unfoldable pub decimal : ℕ → String
unfolding decimal_digits digit nat_eq
decimal n = decimal_digits (suc n) n
