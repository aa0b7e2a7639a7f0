-- ===== src/Triage/Totals.antt =====
-- The items of `compute_triage_detail` add up to the numbers of `compute_triage`.
use yoinkc.Base.{
  ℕ, ◌+◌, String, ◌≡◌, refl, Bool, true, false, Option, none, some, List, [], ◌∷◌, ◌++◌, arith,
  if◌then◌else◌,
}
use yoinkc.Schema.{InspectionSnapshot, ConfigSection}
use yoinkc.Triage.{
  Status, automatic, fixme, manual, TriageItem, add, add_for, compute_triage, compute_triage_detail,
  config_file_count, part, how_many,
}

abbrev is : Status → Status → Bool
is automatic automatic = true
is fixme fixme = true
is manual manual = true
is s t = false

-- The sum of the counts of the items of a status.
abbrev pub sum_of : Status → List TriageItem → ℕ
sum_of s [] = 0
sum_of s (item ∷ items) = (if is s item.status then item.count else 0) + sum_of s items

sum_of-append :
    (s : Status) (items more : List TriageItem)
    → sum_of s (items ++ more) ≡ sum_of s items + sum_of s more
sum_of-append s [] more = omega arith
sum_of-append s (item ∷ items) more = omega (arith, sum_of-append s items more)

sum_of-add :
    (s : Status) (label : String) (count : ℕ) (tab : String) (status : Status)
    (items : List TriageItem)
    → sum_of s (add label count tab status items)
      ≡ sum_of s items + (if is s status then count else 0)
unfolding add
sum_of-add s label count tab status items = ground (
  arith,
  sum_of-append s items (record { label = label; count = count; tab = tab; status = status } ∷ []),
)

sum_of-add_for :
    {S : Type 0} (s : Status) (label : String) (f : S → ℕ) (tab : String) (status : Status)
    (o : Option S) (items : List TriageItem)
    → sum_of s (add_for label f tab status o items)
      ≡ sum_of s items + (if is s status then part f o else 0)
unfolding add_for
sum_of-add_for s label f tab status none items = ground arith
sum_of-add_for s label f tab status (some x) items = sum_of-add s label (f x) tab status items

part-config :
    (o : Option ConfigSection) → part (λ c. config_file_count (some c)) o ≡ config_file_count o
unfolding config_file_count
part-config none = refl
part-config (some c) = refl

part-sum : {S : Type 0} (f g : S → ℕ) (o : Option S) → part (λ x. f x + g x) o ≡ part f o + part g o
part-sum f g none = refl
part-sum f g (some s) = refl

-- For every snapshot and number of FIXME comments, the counts of the items of each status in the detail
-- add up to the number of that status in the triage.
pub compute_triage_detail-sums :
    (snapshot : InspectionSnapshot) (fixmes : ℕ)
    → let items = compute_triage_detail snapshot fixmes in
      let t = compute_triage snapshot fixmes in
      (sum_of automatic items ≡ t.automatic)
      × (sum_of fixme items ≡ t.fixme)
      × (sum_of manual items ≡ t.manual)
unfolding compute_triage_detail compute_triage
compute_triage_detail-sums snapshot fixmes = (
  simp (sum_of-add, sum_of-add_for)
      (omega (
        arith,
        part-config snapshot.config,
        part-sum (λ r. how_many (λ p. p.include) r.packages_added)
            (λ r. how_many (λ p. p.include) r.base_image_only) snapshot.rpm,
      )),
  simp (sum_of-add, sum_of-add_for) (omega arith),
  simp (sum_of-add, sum_of-add_for) (omega arith),
)
