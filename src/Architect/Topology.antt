-- ===== src/Architect/Topology.antt =====
-- `FleetInput`, `FleetInfo`, `Layer` and `LayerTopology` of architect/analyzer.py.
-- A turbulence is kept in fiftieths: `raw` is `fan_out * (len(packages) / 50.0)` and the floor is 1.0.
pub mod Moves
pub mod Images
use yoinkc.Base.{
  ℕ, ◌*◌, String, Bool, true, false, not, ◌&&◌, Option, none, some, List, [], ◌∷◌, ◌++◌, map, ltb,
  length, keep_if, contains, ◌==◌, string_eq, Result, ok, raise, value_error, ◌>>=◌, if◌then◌else◌,
}
use yoinkc.Base.Dict.{is_some}

pub record FleetInput : Type 0 where
  pub name : String
  pub packages : List String
  pub configs : List String
  pub host_count : ℕ
  pub base_image : String
  pub unavailable_packages : List String
  pub direct_install_packages : List String
  pub unverifiable_packages : List String
  pub preflight_status : String

pub record FleetInfo : Type 0 where
  pub name : String
  pub host_count : ℕ
  pub total_packages : ℕ

pub record Layer : Type 0 where
  pub name : String
  pub parent : Option String
  pub packages : List String
  pub configs : List String
  pub fleets : List String
  pub fan_out : ℕ
  pub turbulence : ℕ

pub record LayerTopology : Type 0 where
  pub layers : List Layer
  pub fleets : List FleetInfo

-- `Layer._recalc_turbulence`
unfoldable pub recalc_turbulence : Layer → Layer
recalc_turbulence l =
    let raw = l.fan_out * length l.packages in
    record l { turbulence = if is_some l.parent && ltb raw 50 then 50 else raw }

-- `get_layer`: the first layer of the name
unfoldable pub find_layer : String → List Layer → Option Layer
find_layer name [] = none
find_layer name (layer ∷ layers) = if layer.name == name then some layer else find_layer name layers

-- A change of the object that `get_layer` returns.
unfoldable pub update_layer : String → (Layer → Layer) → List Layer → List Layer
update_layer name f [] = []
update_layer name f (layer ∷ layers) =
    if layer.name == name then f layer ∷ layers else layer ∷ update_layer name f layers

-- packages.remove(package): the first occurrence
unfoldable pub remove_first : String → List String → List String
remove_first package_name [] = []
remove_first package_name (x ∷ xs) =
    if x == package_name then xs else x ∷ remove_first package_name xs

-- `if package not in layer.packages: layer.packages.append(package)`
unfoldable pub add_package : String → Layer → Layer
unfolding contains
add_package package_name l =
    if contains l.packages package_name
    then l
    else record l { packages = l.packages ++ (package_name ∷ []) }

unfoldable pub drop_package : String → Layer → Layer
unfolding remove_first
drop_package package_name l = record l { packages = remove_first package_name l.packages }

abbrev has_parent : String → Layer → Bool
has_parent name l = elim l.parent [ none ↦ false | some p ↦ p == name ]

-- sum(1 for l in self.layers if l.parent == name)
unfoldable pub fan_out_of : String → List Layer → ℕ
unfolding keep_if string_eq
fan_out_of name layers = length (keep_if (has_parent name) layers)

abbrev refresh : List Layer → Layer → Layer
refresh layers l = recalc_turbulence (record l { fan_out = fan_out_of l.name layers })

-- `_recalc_all`. No name or parent changes, so that each count is over the layers as they were.
unfoldable pub recalc_all : List Layer → List Layer
unfolding update_layer recalc_turbulence fan_out_of
recalc_all layers =
    map (λ l. if is_some l.parent then refresh layers l else l)
      (update_layer "base" (refresh layers) layers)

-- The broadcast of a package that leaves the base layer.
unfoldable pub broadcast : String → List Layer → List Layer
unfolding add_package
broadcast package_name = map (λ l. if is_some l.parent then add_package package_name l else l)

require_layer : Option Layer → Result Layer
require_layer none = raise value_error
require_layer (some l) = ok l

require_package : String → Layer → Result Layer
require_package package_name l =
    if contains l.packages package_name then ok l else raise value_error

-- The layers after the two changes of `move_package`.
unfoldable pub moved : String → String → String → List Layer → List Layer
unfolding update_layer drop_package add_package broadcast string_eq
moved package_name from_layer to_layer layers =
    let rest = update_layer from_layer (drop_package package_name) layers in
    if from_layer == "base"
    then broadcast package_name rest
    else update_layer to_layer (add_package package_name) rest

-- `move_package`
unfoldable pub move_package : String → String → String → LayerTopology → Result LayerTopology
unfolding find_layer require_layer require_package moved recalc_all contains
move_package package_name from_layer to_layer topo = do
  src ← require_layer (find_layer from_layer topo.layers)
  dst ← require_layer (find_layer to_layer topo.layers)
  src' ← require_package package_name src
  ok (record topo { layers = recalc_all (moved package_name from_layer to_layer topo.layers) })

-- `copy_package`
unfoldable pub copy_package : String → String → String → LayerTopology → Result LayerTopology
unfolding find_layer require_layer require_package update_layer add_package recalc_all contains
copy_package package_name from_layer to_layer topo = do
  src ← require_layer (find_layer from_layer topo.layers)
  dst ← require_layer (find_layer to_layer topo.layers)
  src' ← require_package package_name src
  ok (record topo {
    layers = recalc_all (update_layer to_layer (add_package package_name) topo.layers);
  })
