-- ===== src/Tests/Triage.antt =====
-- The triage of a snapshot with two packages, of which one is excluded.
use yoinkc.Base.{◌≡◌, refl, false, some, [], ◌∷◌}
use yoinkc.Schema.{InspectionSnapshot}
use yoinkc.Triage.{automatic, fixme, manual, compute_triage, compute_triage_detail}
use yoinkc.Triage.Totals
use yoinkc.Triage.Totals.{sum_of}
use yoinkc.Tests.Data.{rpm_package, no_rpm, snapshot_of}

abbrev two_packages : InspectionSnapshot
two_packages = snapshot_of (
    some (record no_rpm {
      packages_added =
          rpm_package "vim" "9.0" ∷ record (rpm_package "gcc" "11") { include = false } ∷ [];
    }))

one_automatic : (compute_triage two_packages 4).automatic ≡ 1
unfolding compute_triage
one_automatic = refl

compute_triage_detail-sums_example :
    (sum_of automatic (compute_triage_detail two_packages 4)
      ≡ (compute_triage two_packages 4).automatic)
    × (sum_of fixme (compute_triage_detail two_packages 4) ≡ (compute_triage two_packages 4).fixme)
    × (sum_of manual (compute_triage_detail two_packages 4)
        ≡ (compute_triage two_packages 4).manual)
compute_triage_detail-sums_example = Totals.compute_triage_detail-sums two_packages 4
