-- ===== src/Base/Integers.antt =====
-- Python's int and int(text).
use Prim.Native.Char.{Char, code}
use yoinkc.Base.{
  ℕ, zero, suc, ◌+◌, ◌-◌, ◌*◌, String, ◌≡◌, Bool, false, ◌&&◌, ◌||◌, arith, ltb, leb, ◌==◌, nat_eq,
  Result, Error, ok, raise, value_error, if◌then◌else◌,
}
use yoinkc.Base.Slices.{strip}

-- `negsuc n` is -(n + 1)
pub data ℤ : Type 0 where
  pos negsuc : ℕ → ℤ

abbrev pub pos_part : ℤ → ℕ
pos_part (pos n) = n
pos_part (negsuc n) = 0

abbrev pub neg_part : ℤ → ℕ
neg_part (pos n) = 0
neg_part (negsuc n) = suc n

abbrev pub ltb_ℤ : ℤ → ℤ → Bool
ltb_ℤ a b = ltb (pos_part a + neg_part b) (pos_part b + neg_part a)

abbrev pub eq_ℤ : ℤ → ℤ → Bool
eq_ℤ a b = pos_part a + neg_part b == pos_part b + neg_part a

abbrev negate_ℕ : ℕ → ℤ
negate_ℕ zero = pos 0
negate_ℕ (suc n) = negsuc n

is_digit_char : Char → Bool
is_digit_char c = leb 48 (code c) && leb (code c) 57

-- Digits of ASCII, with at most one underscore between two of them.
number_text : Bool → String → Bool
unfolding is_digit_char nat_eq
number_text after_digit String.[] = after_digit
number_text after_digit (String.◌∷◌ c s) =
    let rest = number_text (is_digit_char c) s in
    (is_digit_char c || (code c == 95 && after_digit)) && rest

digits_value : ℕ → String → ℕ
unfolding nat_eq
digits_value n String.[] = n
digits_value n (String.◌∷◌ c s) =
    digits_value (if code c == 95 then n else n * 10 + (code c - 48)) s

unsigned : (ℕ → ℤ) → String → Result ℤ
unfolding number_text digits_value
unsigned sign s = if number_text false s then ok (sign (digits_value 0 s)) else raise value_error

signed : String → Result ℤ
unfolding unsigned nat_eq
signed String.[] = raise value_error
signed (String.◌∷◌ c s) =
    if code c == 45
    then unsigned negate_ℕ s
    else if code c == 43
    then unsigned pos s
    else unsigned pos (String.◌∷◌ c s)

-- int(text): whitespace around a number, a sign and underscores between digits are read, any other text is a
-- `ValueError`. The digits are those of ASCII, and there is no limit on how many they are.
unfoldable pub parse_int : String → Result ℤ
unfolding signed strip
parse_int text = signed (strip text)

unsigned-error :
    (sign : ℕ → ℤ) (s : String) (e : Error) → unsigned sign s ≡ raise e → e ≡ value_error
unfolding unsigned
unsigned-error sign s e h = ground arith

signed-error : (s : String) (e : Error) → signed s ≡ raise e → e ≡ value_error
unfolding signed
signed-error String.[] e h = ground arith
signed-error (String.◌∷◌ c s) e h = ground (
  arith,
  unsigned-error negate_ℕ s e,
  unsigned-error pos s e,
  unsigned-error pos (String.◌∷◌ c s) e,
)

-- The only exception of `int` on a text.
pub parse_int-error : (s : String) (e : Error) → parse_int s ≡ raise e → e ≡ value_error
unfolding parse_int
parse_int-error s e h = signed-error (strip s) e h
