-- ===== src/Tests/Versions.antt =====
-- Comparisons of RPM versions.
use yoinkc.Base.{
  ◌+◌, suc, String, ◌≡◌, refl, Bool, some, ok, raise, value_error, if◌then◌else◌, ◌==◌, string_eq,
}
use yoinkc.RpmVersion.{Sign, compare_loop, size, rpmvercmp, epoch_of, evr_sign, compare_evr}
use yoinkc.RpmVersion.Order
use yoinkc.RpmVersion.Order.{flip, flip_result}
use yoinkc.RpmVersion.Fuel
use yoinkc.Schema.{PackageEntry}
use yoinkc.Tests.Data.{rpm_package}

pre_release : rpmvercmp "1.0~rc1" "1.0" ≡ Sign.less
unfolding rpmvercmp
pre_release = refl

numeric : rpmvercmp "1.10" "1.9" ≡ Sign.greater
unfolding rpmvercmp
numeric = refl

rpmvercmp-flip_example : rpmvercmp "1.0" "1.0~rc1" ≡ flip (rpmvercmp "1.0~rc1" "1.0")
rpmvercmp-flip_example = Order.rpmvercmp-flip "1.0~rc1" "1.0"

compare_evr-flip_example :
    compare_evr (rpm_package "vim" "9.1") (rpm_package "vim" "9.0")
    ≡ flip_result (compare_evr (rpm_package "vim" "9.0") (rpm_package "vim" "9.1"))
compare_evr-flip_example =
    Order.compare_evr-flip (rpm_package "vim" "9.0") (rpm_package "vim" "9.1")

abbrev same_text : String → String → Bool
same_text a b = a == b

rpmvercmp-returns_example :
    (s : Sign) × (compare_loop (suc (size "1.10" + size "1.9")) "1.10" "1.9" ≡ some s)
    × (rpmvercmp "1.10" "1.9" ≡ (if same_text "1.10" "1.9" then Sign.same else s))
rpmvercmp-returns_example = Fuel.rpmvercmp-returns "1.10" "1.9"

-- An epoch is read as `int` reads it.
abbrev with_epoch : String → PackageEntry
with_epoch epoch = record (rpm_package "vim" "9.0") { epoch = epoch }

negative_epoch : compare_evr (with_epoch "-1") (with_epoch "") ≡ ok Sign.less
unfolding compare_evr epoch_of evr_sign
negative_epoch = refl

underscore_epoch : compare_evr (with_epoch " 1_0\n") (with_epoch "+9") ≡ ok Sign.greater
unfolding compare_evr epoch_of evr_sign
underscore_epoch = refl

same_epoch : compare_evr (with_epoch "-0") (with_epoch "00") ≡ ok Sign.same
unfolding compare_evr epoch_of evr_sign rpmvercmp string_eq
same_epoch = refl

bad_epoch : compare_evr (with_epoch "1__0") (with_epoch "1") ≡ raise value_error
unfolding compare_evr epoch_of
bad_epoch = refl
