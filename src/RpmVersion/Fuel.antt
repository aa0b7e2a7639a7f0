-- ===== src/RpmVersion/Fuel.antt =====
-- The loop of `_rpmvercmp` returns within its fuel: each round that goes on takes characters of both texts.
use Prim.Native.Char.{Char}
use yoinkc.Base.{
  ℕ, zero, suc, ◌+◌, ◌≤◌, ◌<◌, String, ◌≡◌, ◌≢◌, refl, Bool, true, not, Option, none, some, arith,
  inl, inr, Option-cases, ◌==◌, nat_eq, string_eq, if◌then◌else◌,
}
use yoinkc.Base.Text.{lstrip_if}
use yoinkc.RpmVersion.Unrolled.{run_round, compare_loop-suc}
use yoinkc.RpmVersion.{
  Sign, same, Head, ended, tilde, caret, digits, letters, Round, return_sign, go_on, is_digit,
  is_alpha, is_separator, span, head_of, next_head, compare_heads, compare_loop, size, rpmvercmp,
}

size-lstrip_if : (p : Char → Bool) (s : String) → size (lstrip_if p s) ≤ size s
unfolding size lstrip_if
size-lstrip_if p String.[] = omega arith
size-lstrip_if p (String.◌∷◌ c s) = ground (arith, size-lstrip_if p s)

size-span : (p : Char → Bool) (s : String) → size (span p s).1 ≤ size s
unfolding size span
size-span p String.[] = omega arith
size-span p (String.◌∷◌ c s) = ground (arith, size-span p s)

size-span-lt :
    (p : Char → Bool) (c : Char) (s : String)
    → p c ≡ true
    → size (span p (String.◌∷◌ c s)).1 < size (String.◌∷◌ c s)
unfolding size span
size-span-lt p c s h = ground (arith, size-span p s)

-- What the head leaves.
abbrev rest_of : Head → Option String
rest_of ended = none
rest_of (tilde s) = some s
rest_of (caret s) = some s
rest_of (digits n s) = some s
rest_of (letters w s) = some s

abbrev starts_outside : (Char → Bool) → String → Bool
starts_outside p String.[] = true
starts_outside p (String.◌∷◌ c s) = not (p c)

lstrip_if-starts_outside : (p : Char → Bool) (s : String) → starts_outside p (lstrip_if p s) ≡ true
unfolding lstrip_if
lstrip_if-starts_outside p String.[] = refl
lstrip_if-starts_outside p (String.◌∷◌ c s) = ground (arith, lstrip_if-starts_outside p s)

head_of-lt :
    (s rest : String)
    → starts_outside is_separator s ≡ true
    → rest_of (head_of s) ≡ some rest
    → size rest < size s
unfolding head_of size is_separator
head_of-lt String.[] rest h k = cc
head_of-lt (String.◌∷◌ c s) rest h k =
    ground (arith, size-span-lt is_digit c s, size-span-lt is_alpha c s)

next_head-lt : (s rest : String) → rest_of (next_head s) ≡ some rest → size rest < size s
unfolding next_head
next_head-lt s rest h = omega (
  arith,
  head_of-lt (lstrip_if is_separator s) rest (lstrip_if-starts_outside is_separator s) h,
  size-lstrip_if is_separator s,
)

-- A round that goes on does so behind the two heads.
abbrev GoesOn : Head → Head → Round → Type 0
GoesOn h k (return_sign s) = Unit
GoesOn h k (go_on a b) = (rest_of h ≡ some a) × (rest_of k ≡ some b)

compare_heads-GoesOn : (h k : Head) → GoesOn h k (compare_heads h k)
unfolding compare_heads
compare_heads-GoesOn h k = ground arith

run_round-ne-none :
    (fuel : ℕ) (h k : Head) (r : Round)
    → GoesOn h k r
    → ((a b : String) → rest_of h ≡ some a → rest_of k ≡ some b → compare_loop fuel a b ≢ none)
    → run_round fuel r ≢ none
run_round-ne-none fuel h k (return_sign s) g f = λ e. cc
run_round-ne-none fuel h k (go_on a b) g f = f a b g.0 g.1

compare_loop-ne-none :
    (fuel : ℕ) (a b : String) → size a + size b < fuel → compare_loop fuel a b ≢ none
compare_loop-ne-none zero a b h = elim h [ ]
compare_loop-ne-none (suc fuel) a b h = ground (
  arith,
  compare_loop-suc fuel a b,
  run_round-ne-none fuel (next_head a) (next_head b) (compare_heads (next_head a) (next_head b))
      (compare_heads-GoesOn (next_head a) (next_head b))
      (λ a' b' left right.
        compare_loop-ne-none fuel a' b'
          (omega (arith, next_head-lt a a' left, next_head-lt b b' right))),
)

-- The fuel of `_rpmvercmp` is enough for every two versions: the loop returns, and its sign is the result.
pub rpmvercmp-returns :
    (a b : String)
    → (s : Sign) × (compare_loop (suc (size a + size b)) a b ≡ some s)
      × (rpmvercmp a b ≡ (if a == b then same else s))
unfolding rpmvercmp
rpmvercmp-returns a b = elim (Option-cases (compare_loop (suc (size a + size b)) a b)) [
  | inl out ↦ absurd (compare_loop-ne-none (suc (size a + size b)) a b (omega arith) out)
  | inr (s, returned) ↦ (s, returned, rw returned)
]
