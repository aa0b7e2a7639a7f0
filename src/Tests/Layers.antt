-- ===== src/Tests/Layers.antt =====
-- The layers of two fleets, and an install set.
use yoinkc.Base.{
  String, ◌≡◌, refl, Bool, ◌&&◌, ◌||◌, some, List, [], ◌∷◌, map, contains, Distinct, string_eq,
  ◌==◌, All, ok, Option, none, true,
}
use yoinkc.Base.Dict.{upsert}
use yoinkc.Base.Sort.{str_leb}
use yoinkc.Base.Sort.Laws.{Ascends}
use yoinkc.Schema.{InspectionSnapshot}
use yoinkc.Architect.Topology.{FleetInput, Layer, LayerTopology, move_package, find_layer}
use yoinkc.Architect.Topology.Images
use yoinkc.Architect.Topology.Images.{in_image}
use yoinkc.Architect.Analyze.{analyze_fleets}
use yoinkc.Architect.Analyze.Cover
use yoinkc.Architect.Analyze.Cover.{in_all, Covers, names_of}
use yoinkc.InstallSet.{resolve_install_set, needs_tuned}
use yoinkc.InstallSet.Exact
use yoinkc.InstallSet.Exact.{is_wanted}
use yoinkc.Tests.Data.{rpm_package, no_rpm, snapshot_of, fleet_of}

abbrev web : FleetInput
web = fleet_of "web" ("bash" ∷ "httpd" ∷ [])

abbrev db : FleetInput
db = fleet_of "db" ("bash" ∷ "postgresql" ∷ [])

names_of-Distinct : Distinct (names_of (web ∷ db ∷ []))
unfolding contains string_eq
names_of-Distinct = (refl, (refl, tt))

analyze_fleets-Covers_example :
    (base : List String) × (derived : List (List String)) × (map
        (λ l. l.packages)
        (analyze_fleets (web ∷ db ∷ [])).layers
      ≡ base ∷ derived)
    × ((p : String) → contains base p ≡ in_all p (web ∷ db ∷ []))
    × Covers base (web ∷ db ∷ []) derived
analyze_fleets-Covers_example = Cover.analyze_fleets-Covers web db [] names_of-Distinct

layers_of_two :
    map (λ l. l.packages) (analyze_fleets (web ∷ db ∷ [])).layers
    ≡ ("bash" ∷ []) ∷ ("httpd" ∷ []) ∷ ("postgresql" ∷ []) ∷ []
unfolding analyze_fleets upsert
layers_of_two = refl

abbrev installed : InspectionSnapshot
installed = snapshot_of (
    some (record no_rpm {
      packages_added =
          rpm_package "vim" "9.0" ∷ rpm_package "a;b" "1" ∷ rpm_package "httpd" "2.4" ∷ [];
      leaf_packages = some ("vim" ∷ "a;b" ∷ []);
    }))

abbrev is_tuned : String → Bool
is_tuned n = n == "tuned"

contains-resolve_install_set_example :
    contains (resolve_install_set installed) "vim"
    ≡ (is_wanted "vim" installed.rpm || (needs_tuned installed.kernel_boot && is_tuned "vim"))
contains-resolve_install_set_example = Exact.contains-resolve_install_set "vim" installed

only_vim : resolve_install_set installed ≡ "vim" ∷ []
unfolding resolve_install_set
only_vim = refl

resolve_install_set-Ascends_example : Ascends str_leb (resolve_install_set installed)
resolve_install_set-Ascends_example = Exact.resolve_install_set-Ascends installed

abbrev layer : String → Option String → List String → Layer
layer name parent packages = record {
  name = name;
  parent = parent;
  packages = packages;
  configs = [];
  fleets = [];
  fan_out = 0;
  turbulence = 0;
}

abbrev base_layer_of_two : Layer
base_layer_of_two = layer "base" none ("bash" ∷ "vim" ∷ [])

abbrev derived_of_two : List Layer
derived_of_two = layer "web" (some "base") ("httpd" ∷ []) ∷ layer "db" (some "base") [] ∷ []

move_package-keeps_images_example :
    (after : LayerTopology) × (new_base : List String) × (new_derived : List (List String))
    × (move_package "vim" "base" "web"
          (record { layers = base_layer_of_two ∷ derived_of_two; fleets = [] })
        ≡ ok after)
    × (map (λ l. l.packages) after.layers ≡ new_base ∷ new_derived)
    × All (λ ps. contains ps "vim" ≡ true) new_derived
    × ((q : String)
        → map (in_image q new_base) new_derived
          ≡ map (λ l. in_image q base_layer_of_two.packages l.packages) derived_of_two)
unfolding contains string_eq find_layer
move_package-keeps_images_example =
    Images.move_package-keeps_images "vim" "web" base_layer_of_two derived_of_two [] refl refl
      (refl, (refl, tt)) refl refl
