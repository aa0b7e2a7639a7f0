-- ===== src/RpmVersion.antt =====
-- `_rpmvercmp` and `_compare_evr` of inspectors/rpm.py, for versions of ASCII characters.
pub mod Unrolled
pub mod Order
pub mod Fuel
use Prim.Native.Char.{Char, code}
use yoinkc.Base.{
  ℕ, zero, suc, ◌+◌, ◌-◌, ◌*◌, String, Bool, true, false, not, ◌&&◌, ◌||◌, Option, none, some, ltb,
  leb, ◌==◌, nat_eq, string_eq, Result, ok, raise, value_error, ◌>>=◌, if◌then◌else◌,
}
use yoinkc.Base.Text.{lstrip_if, is_empty}
use yoinkc.Base.Decimal.{to_number}
use yoinkc.Base.Integers.{ℤ, pos, eq_ℤ, ltb_ℤ, parse_int}
use yoinkc.Base.Sort.{str_leb}
use yoinkc.Base.Dict.{get_or}
use yoinkc.Schema.{PackageEntry}

-- The sign of the result.
pub data Sign : Type 0 where
  less same greater : Sign

unfoldable pub is_digit : Char → Bool
is_digit ch = let c = code ch in leb 48 c && leb c 57

unfoldable pub is_alpha : Char → Bool
is_alpha ch = let c = code ch in (leb 65 c && leb c 90) || (leb 97 c && leb c 122)

-- What the two inner loops skip: neither alphanumeric nor a tilde or a caret.
unfoldable pub is_separator : Char → Bool
unfolding is_digit is_alpha nat_eq
is_separator ch = not (is_digit ch || is_alpha ch || code ch == 126 || code ch == 94)

-- The longest prefix of characters that pass a test, and the rest.
unfoldable pub span : (Char → Bool) → String → String × String
span p String.[] = (String.[], String.[])
span p (String.◌∷◌ c s) =
    let (segment, rest) = span p s in
    if p c then (String.◌∷◌ c segment, rest) else (String.[], String.◌∷◌ c s)

-- What stands at a position behind the separators: the end, a marker with the rest, or the segment that
-- begins there with the rest.
pub data Head : Type 0 where
  ended : Head
  tilde caret : String → Head
  digits : ℕ → String → Head
  letters : String → String → Head

head_of : String → Head
head_of String.[] = ended
head_of (String.◌∷◌ c s) =
    let number = span is_digit (String.◌∷◌ c s) in
    let word = span is_alpha (String.◌∷◌ c s) in
    if code c == 126
    then tilde s
    else if code c == 94
    then caret s
    else if is_digit c
    then digits (to_number 0 number.0) number.1
    else letters word.0 word.1

unfoldable pub next_head : String → Head
unfolding head_of lstrip_if is_separator span to_number nat_eq
next_head s = head_of (lstrip_if is_separator s)

-- A round of the loop returns a sign or goes on behind the two segments.
pub data Round : Type 0 where
  return_sign : Sign → Round
  go_on : String → String → Round

sign_of : Bool → Sign
sign_of more = if more then greater else less

unfoldable pub compare_heads : Head → Head → Round
unfolding sign_of
compare_heads ended ended = return_sign same
compare_heads ended (tilde b) = return_sign greater
compare_heads ended _ = return_sign less
compare_heads (tilde a) ended = return_sign less
compare_heads (caret a) ended = return_sign greater
compare_heads (digits n a) ended = return_sign greater
compare_heads (letters s a) ended = return_sign greater
compare_heads (tilde a) (tilde b) = go_on a b
compare_heads (tilde a) _ = return_sign less
compare_heads (caret a) (tilde b) = return_sign greater
compare_heads (caret a) (caret b) = go_on a b
compare_heads (caret a) _ = return_sign less
compare_heads (digits n a) (tilde b) = return_sign greater
compare_heads (digits n a) (caret b) = return_sign greater
compare_heads (digits n a) (digits m b) =
    if not (n == m) then return_sign (sign_of (ltb m n)) else go_on a b
compare_heads (digits n a) (letters t b) = return_sign greater
compare_heads (letters s a) (tilde b) = return_sign greater
compare_heads (letters s a) (caret b) = return_sign greater
compare_heads (letters s a) (digits m b) = return_sign less
compare_heads (letters s a) (letters t b) =
    if not (s == t) then return_sign (sign_of (not (str_leb s t))) else go_on a b

-- `while i < len(a) or j < len(b)`, on fuel: `none` means that the fuel ran out.
unfoldable pub compare_loop : ℕ → String → String → Option Sign
unfolding next_head compare_heads sign_of str_leb nat_eq string_eq
compare_loop zero a b = none
compare_loop (suc fuel) a b =
    if is_empty a && is_empty b
    then some same
    else elim (compare_heads (next_head a) (next_head b)) [
      | return_sign s ↦ some s
      | go_on a' b' ↦ compare_loop fuel a' b'
    ]

unfoldable pub size : String → ℕ
size String.[] = 0
size (String.◌∷◌ c s) = suc (size s)

-- `_rpmvercmp`; each round takes a character of a text.
unfoldable pub rpmvercmp : String → String → Sign
unfolding compare_loop size string_eq
rpmvercmp a b = if a == b then same else get_or (compare_loop (suc (size a + size b)) a b) same

-- int(epoch or "0")
unfoldable pub epoch_of : String → Result ℤ
unfolding parse_int
epoch_of epoch = if is_empty epoch then ok (pos 0) else parse_int epoch

-- The sign of the epochs if they differ, else that of the versions if it is not 0, else of the releases.
unfoldable pub evr_sign : ℤ → ℤ → Sign → Sign → Sign
unfolding nat_eq
evr_sign h_epoch b_epoch vc rc =
    if not (eq_ℤ h_epoch b_epoch)
    then (if ltb_ℤ b_epoch h_epoch then greater else less)
    else (elim vc [ less ↦ less | same ↦ rc | greater ↦ greater ])

-- `_compare_evr`
unfoldable pub compare_evr : PackageEntry → PackageEntry → Result Sign
compare_evr host_pkg base_pkg = do
  h_epoch ← epoch_of host_pkg.epoch
  b_epoch ← epoch_of base_pkg.epoch
  ok (
      evr_sign h_epoch b_epoch (rpmvercmp host_pkg.version base_pkg.version)
        (rpmvercmp host_pkg.release base_pkg.release))
