-- ===== src/RpmVersion/Order.antt =====
-- `_rpmvercmp` is antisymmetric: comparing the other way round turns the sign.
use yoinkc.Base.{
  ℕ, zero, suc, ◌+◌, String, ◌≡◌, refl, ap, false, not, Option, none, some, arith, ltb, ◌==◌,
  nat_eq, string_eq, Result, Error, ok, raise, value_error, ◌>>=◌,
}
use native.Mathlib.Nat.{add_comm}
use yoinkc.Base.Integers.{ℤ, parse_int-error}
use yoinkc.Base.Sort.{str_leb}
use yoinkc.Base.Sort.Laws.{str_leb_total, str_leb_antisym}
use yoinkc.Schema.{PackageEntry}
use yoinkc.RpmVersion.Unrolled.{run_round, compare_loop-suc}
use yoinkc.RpmVersion.{
  Sign, less, same, greater, Head, ended, tilde, caret, digits, letters, Round, return_sign, go_on,
  sign_of, compare_heads, next_head, compare_loop, size, rpmvercmp, epoch_of, evr_sign, compare_evr,
}

abbrev pub flip : Sign → Sign
flip less = greater
flip same = same
flip greater = less

abbrev flip_round : Round → Round
flip_round (return_sign s) = return_sign (flip s)
flip_round (go_on a b) = go_on b a

letters_flip :
    (s t : String)
    → (s == t) ≡ false
    → sign_of (not (str_leb t s)) ≡ flip (sign_of (not (str_leb s t)))
unfolding sign_of
letters_flip s t h = ground (arith, str_leb_total s t, str_leb_antisym s t)

numbers_flip : (n m : ℕ) → (n == m) ≡ false → sign_of (ltb n m) ≡ flip (sign_of (ltb m n))
unfolding sign_of
numbers_flip n m h = ground arith

compare_heads-flip : (h k : Head) → compare_heads k h ≡ flip_round (compare_heads h k)
unfolding compare_heads
compare_heads-flip (digits n a) (digits m b) = ground (arith, numbers_flip n m)
compare_heads-flip (letters s a) (letters t b) = ground (arith, letters_flip s t)
compare_heads-flip ended ended = refl
compare_heads-flip ended (tilde b) = refl
compare_heads-flip ended (caret b) = refl
compare_heads-flip ended (digits m b) = refl
compare_heads-flip ended (letters t b) = refl
compare_heads-flip (tilde a) ended = refl
compare_heads-flip (tilde a) (tilde b) = refl
compare_heads-flip (tilde a) (caret b) = refl
compare_heads-flip (tilde a) (digits m b) = refl
compare_heads-flip (tilde a) (letters t b) = refl
compare_heads-flip (caret a) ended = refl
compare_heads-flip (caret a) (tilde b) = refl
compare_heads-flip (caret a) (caret b) = refl
compare_heads-flip (caret a) (digits m b) = refl
compare_heads-flip (caret a) (letters t b) = refl
compare_heads-flip (digits n a) ended = refl
compare_heads-flip (digits n a) (tilde b) = refl
compare_heads-flip (digits n a) (caret b) = refl
compare_heads-flip (digits n a) (letters t b) = refl
compare_heads-flip (letters s a) ended = refl
compare_heads-flip (letters s a) (tilde b) = refl
compare_heads-flip (letters s a) (caret b) = refl
compare_heads-flip (letters s a) (digits m b) = refl

abbrev flip_some : Option Sign → Option Sign
flip_some none = none
flip_some (some s) = some (flip s)

run_round-flip :
    (fuel : ℕ) (r : Round)
    → ((a b : String) → compare_loop fuel b a ≡ flip_some (compare_loop fuel a b))
    → run_round fuel (flip_round r) ≡ flip_some (run_round fuel r)
run_round-flip fuel (return_sign s) ih = refl
run_round-flip fuel (go_on a b) ih = ih a b

compare_loop-flip :
    (fuel : ℕ) (a b : String) → compare_loop fuel b a ≡ flip_some (compare_loop fuel a b)
compare_loop-flip zero a b = unfold compare_loop in refl
compare_loop-flip (suc fuel) a b = ground (
  arith,
  compare_loop-suc fuel a b,
  compare_loop-suc fuel b a,
  compare_heads-flip (next_head a) (next_head b),
  run_round-flip fuel (compare_heads (next_head a) (next_head b)) (compare_loop-flip fuel),
)

-- Turning the two versions round turns the sign of their comparison.
pub rpmvercmp-flip : (a b : String) → rpmvercmp b a ≡ flip (rpmvercmp a b)
unfolding rpmvercmp
rpmvercmp-flip a b =
    ground (arith, add_comm (size a) (size b), compare_loop-flip (suc (size a + size b)) a b)

abbrev pub flip_result : Result Sign → Result Sign
flip_result (ok s) = ok (flip s)
flip_result (raise e) = raise e

epoch_of-error : (s : String) (e : Error) → epoch_of s ≡ raise e → e ≡ value_error
unfolding epoch_of
epoch_of-error s e h = ground (arith, parse_int-error s e)

evr_sign-flip :
    (h b : ℤ) (vc rc : Sign) → evr_sign b h (flip vc) (flip rc) ≡ flip (evr_sign h b vc rc)
unfolding evr_sign
evr_sign-flip h b less rc = ground arith
evr_sign-flip h b same rc = ground arith
evr_sign-flip h b greater rc = ground arith

abbrev combine : Result ℤ → Result ℤ → Sign → Sign → Result Sign
combine x y vc rc = do h ← x; b ← y; ok (evr_sign h b vc rc)

combine-flip :
    (x y : Result ℤ) (vc rc : Sign)
    → ((e : Error) → x ≡ raise e → e ≡ value_error)
    → ((e : Error) → y ≡ raise e → e ≡ value_error)
    → combine y x (flip vc) (flip rc) ≡ flip_result (combine x y vc rc)
combine-flip (ok h) (ok b) vc rc hx hy = ap ok (evr_sign-flip h b vc rc)
combine-flip (ok h) (raise e) vc rc hx hy = refl
combine-flip (raise e) (ok b) vc rc hx hy = refl
combine-flip (raise e) (raise d) vc rc hx hy = cc (hx e refl, hy d refl)

-- Turning the two packages round turns the sign of the comparison of their epochs, versions and
-- releases, and an epoch that `int` does not read raises either way.
pub compare_evr-flip : (p q : PackageEntry) → compare_evr q p ≡ flip_result (compare_evr p q)
unfolding compare_evr
compare_evr-flip p q =
    rw (rpmvercmp-flip p.version q.version, rpmvercmp-flip p.release q.release)
      (combine-flip (epoch_of p.epoch) (epoch_of q.epoch) (rpmvercmp p.version q.version)
        (rpmvercmp p.release q.release) (epoch_of-error p.epoch) (epoch_of-error q.epoch))
