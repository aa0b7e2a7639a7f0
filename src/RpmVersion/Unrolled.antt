-- ===== src/RpmVersion/Unrolled.antt =====
-- A round of the loop of `_rpmvercmp`, with the call for the next one.
use yoinkc.Base.{ℕ, suc, String, ◌≡◌, ◌&&◌, Option, some, arith, if◌then◌else◌}
use yoinkc.Base.Text.{is_empty}
use yoinkc.RpmVersion.{
  Sign, same, Round, return_sign, go_on, compare_heads, next_head, compare_loop,
}

abbrev pub run_round : ℕ → Round → Option Sign
run_round fuel (return_sign s) = some s
run_round fuel (go_on a b) = compare_loop fuel a b

pub compare_loop-suc :
    (fuel : ℕ) (a b : String)
    → compare_loop (suc fuel) a b ≡ (
        if is_empty a && is_empty b
        then some same
        else run_round fuel (compare_heads (next_head a) (next_head b)))
unfolding compare_loop
compare_loop-suc fuel a b = ground arith
