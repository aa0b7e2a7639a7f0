-- ===== src/Tests/Installed.antt =====
-- Two versions of one kernel package.
use yoinkc.Base.{String, ◌≡◌, refl, List, [], ◌∷◌, ltb, contains, string_eq}
use yoinkc.Base.Sort.{str_leb}
use yoinkc.Base.Sort.Laws.{Ascends}
use yoinkc.Schema.{PackageEntry}
use yoinkc.Installed.{detect_duplicates}
use yoinkc.Installed.Duplicates
use yoinkc.Installed.Duplicates.{versions_of}
use yoinkc.Tests.Data.{rpm_package}

abbrev kernels : List PackageEntry
kernels = rpm_package "kernel" "5.14" ∷ rpm_package "vim" "9.0" ∷ rpm_package "kernel" "5.15" ∷ []

only_kernel : detect_duplicates kernels ≡ "kernel.x86_64" ∷ []
unfolding detect_duplicates string_eq
only_kernel = refl

detect_duplicates-twice_example :
    Ascends str_leb (detect_duplicates kernels)
    × ((key : String) → contains (detect_duplicates kernels) key ≡ ltb 1 (versions_of key kernels))
detect_duplicates-twice_example = Duplicates.detect_duplicates-twice kernels
