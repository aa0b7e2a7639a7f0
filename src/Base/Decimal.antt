-- ===== src/Base/Decimal.antt =====
-- `str(n)` of a number: its digits determine it, and none of them is an underscore.
use Prim.Native.Char.{code}
use Prim.Native.Nat.{◌%◌}
use yoinkc.Base.{
  ℕ, zero, suc, ◌+◌, ◌-◌, ◌*◌, ◌/◌, ◌<◌, String, ◌<>◌, ◌≡◌, refl, ◌∙◌, Bool-cases, inl, inr, arith,
  nat_eq, ltb,
}
use text.Mathlib.TextLemmas.{nil-append, cons-append}
use yoinkc.Base.Text.{digit, decimal_digits, decimal}
use yoinkc.Base.Slices.{count_char}

-- int(s), for a text of digits
unfoldable pub to_number : ℕ → String → ℕ
to_number n String.[] = n
to_number n (String.◌∷◌ c s) = to_number (n * 10 + (code c - 48)) s

pub to_number-append : (n : ℕ) (s t : String) → to_number n (s <> t) ≡ to_number (to_number n s) t
unfolding to_number
to_number-append n String.[] t = rw nil-append
to_number-append n (String.◌∷◌ c s) t =
    rw cons-append (to_number-append (n * 10 + (code c - 48)) s t)

pub count_char-append :
    (k : ℕ) (s t : String) → count_char k (s <> t) ≡ count_char k s + count_char k t
unfolding count_char
count_char-append k String.[] t = rw nil-append (omega arith)
count_char-append k (String.◌∷◌ c s) t = rw cons-append (omega (arith, count_char-append k s t))

to_number-digit : (n d : ℕ) → d < 10 → to_number n (digit d) ≡ n * 10 + d
unfolding to_number digit
to_number-digit n zero h = omega arith
to_number-digit n (suc zero) h = omega arith
to_number-digit n (suc (suc zero)) h = omega arith
to_number-digit n (suc (suc (suc zero))) h = omega arith
to_number-digit n (suc (suc (suc (suc zero)))) h = omega arith
to_number-digit n (suc (suc (suc (suc (suc zero))))) h = omega arith
to_number-digit n (suc (suc (suc (suc (suc (suc zero)))))) h = omega arith
to_number-digit n (suc (suc (suc (suc (suc (suc (suc zero))))))) h = omega arith
to_number-digit n (suc (suc (suc (suc (suc (suc (suc (suc zero)))))))) h = omega arith
to_number-digit n (suc (suc (suc (suc (suc (suc (suc (suc (suc d))))))))) h = omega arith

-- The characters after `9`, such as `:` and `_`, stand in no number.
count_char-digit : (k d : ℕ) → 57 < k → count_char k (digit d) ≡ 0
unfolding count_char digit nat_eq
count_char-digit k zero h = ground arith
count_char-digit k (suc zero) h = ground arith
count_char-digit k (suc (suc zero)) h = ground arith
count_char-digit k (suc (suc (suc zero))) h = ground arith
count_char-digit k (suc (suc (suc (suc zero)))) h = ground arith
count_char-digit k (suc (suc (suc (suc (suc zero))))) h = ground arith
count_char-digit k (suc (suc (suc (suc (suc (suc zero)))))) h = ground arith
count_char-digit k (suc (suc (suc (suc (suc (suc (suc zero))))))) h = ground arith
count_char-digit k (suc (suc (suc (suc (suc (suc (suc (suc zero)))))))) h = ground arith
count_char-digit k (suc (suc (suc (suc (suc (suc (suc (suc (suc d))))))))) h = ground arith

to_number-decimal_digits : (fuel n : ℕ) → n < fuel → to_number 0 (decimal_digits fuel n) ≡ n
unfolding decimal_digits
to_number-decimal_digits zero n h = elim h [ ]
to_number-decimal_digits (suc fuel) n h = elim (Bool-cases (ltb n 10)) [
  | inl small ↦ rw small (to_number-digit 0 n (ground arith) ∙ omega arith)
  | inr large ↦
      rw (large, to_number-append, to_number-decimal_digits fuel (n / 10) (ground arith))
        (to_number-digit (n / 10) (n % 10) (omega arith) ∙ omega arith)
]

-- Reading the digits of a number gives the number back.
pub to_number-decimal : (n : ℕ) → to_number 0 (decimal n) ≡ n
unfolding decimal
to_number-decimal n = to_number-decimal_digits (suc n) n (omega arith)

count_char-decimal_digits : (k fuel n : ℕ) → 57 < k → count_char k (decimal_digits fuel n) ≡ 0
unfolding decimal_digits count_char
count_char-decimal_digits k zero n h = refl
count_char-decimal_digits k (suc fuel) n h = elim (Bool-cases (ltb n 10)) [
  | inl small ↦ rw small (count_char-digit k n h)
  | inr large ↦ rw large (
      omega (
        arith,
        count_char-append k (decimal_digits fuel (n / 10)) (digit (n % 10)),
        count_char-decimal_digits k fuel (n / 10) h,
        count_char-digit k (n % 10) h,
      ))
]

pub count_char-decimal : (k n : ℕ) → 57 < k → count_char k (decimal n) ≡ 0
unfolding decimal
count_char-decimal k n h = count_char-decimal_digits k (suc n) n h
