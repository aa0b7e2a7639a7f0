-- ===== src/Architect/Analyze.antt =====
-- `analyze_fleets` of architect/analyzer.py.
pub mod Cover
use yoinkc.Base.{
  ℕ, String, Bool, true, false, not, ◌&&◌, Option, none, some, List, [], ◌∷◌, ◌++◌, map, length,
  keep_if, contains, ◌==◌, string_eq, if◌then◌else◌,
}
use yoinkc.Base.Dict.{Dict, upsert, keys}
use yoinkc.Base.Sort.{sorted}
use yoinkc.Architect.Topology.{
  FleetInput, FleetInfo, Layer, LayerTopology, recalc_turbulence, recalc_all,
}

-- s.add(x)
unfoldable pub add_to_set : String → List String → List String
unfolding contains
add_to_set x s = if contains s x then s else s ++ (x ∷ [])

-- `for pkg in f.packages: pkg_to_fleets[pkg].add(f.name)`
unfoldable pub index_packages :
    String → List String → Dict String (List String) → Dict String (List String)
unfolding add_to_set
index_packages name [] pkg_to_fleets = pkg_to_fleets
index_packages name (pkg ∷ packages) pkg_to_fleets =
    index_packages name packages (upsert pkg (name ∷ []) (add_to_set name) pkg_to_fleets)

unfoldable pub index_fleets :
    List FleetInput → Dict String (List String) → Dict String (List String)
unfolding index_packages
index_fleets [] pkg_to_fleets = pkg_to_fleets
index_fleets (f ∷ fleets) pkg_to_fleets =
    index_fleets fleets (index_packages f.name f.packages pkg_to_fleets)

unfoldable pub includes : List String → List String → Bool
unfolding contains
includes s [] = true
includes s (x ∷ xs) = contains s x && includes s xs

-- Two sets are equal.
unfoldable pub same_set : List String → List String → Bool
unfolding includes
same_set s t = includes s t && includes t s

-- sorted(pkg for pkg, f_set in pkg_to_fleets.items() if f_set == all_fleet_names)
unfoldable pub base_packages_of : List FleetInput → List String
unfolding index_fleets same_set keep_if keys sorted
base_packages_of fleets =
    let all_fleet_names = map (λ f. f.name) fleets in
    sorted (keys (keep_if (λ e. same_set e.1 all_fleet_names) (index_fleets fleets [])))

abbrev pub no_layer : Layer
no_layer = record {
  name = "";
  parent = none;
  packages = [];
  configs = [];
  fleets = [];
  fan_out = 0;
  turbulence = 0;
}

unfoldable pub derived_layer : List String → FleetInput → Layer
unfolding sorted keep_if contains
derived_layer base_packages f = record no_layer {
  name = f.name;
  parent = some "base";
  packages = sorted (keep_if (λ pkg. not (contains base_packages pkg)) f.packages);
  configs = f.configs;
  fleets = f.name ∷ [];
}

unfoldable pub base_layer : List String → List String → Layer
base_layer base_packages fleet_names = record no_layer {
  name = "base";
  packages = base_packages;
  fleets = fleet_names;
}

single_layer : FleetInput → Layer
single_layer f = recalc_turbulence (record no_layer {
  name = f.name;
  packages = f.packages;
  configs = f.configs;
  fleets = f.name ∷ [];
})

-- The layers: one for a single fleet, and the base layer with a layer for each fleet otherwise.
unfoldable pub layers_of : List FleetInput → List Layer
unfolding single_layer base_layer derived_layer base_packages_of recalc_all recalc_turbulence
layers_of (f ∷ []) = single_layer f ∷ []
layers_of fleets =
    let base_packages = base_packages_of fleets in
    recalc_all (
      base_layer base_packages (map (λ f. f.name) fleets)
      ∷ map (derived_layer base_packages) fleets)

abbrev info : FleetInput → FleetInfo
info f = record { name = f.name; host_count = f.host_count; total_packages = length f.packages }

-- `analyze_fleets`
unfoldable pub analyze_fleets : List FleetInput → LayerTopology
unfolding layers_of
analyze_fleets fleets = record { layers = layers_of fleets; fleets = map info fleets }
