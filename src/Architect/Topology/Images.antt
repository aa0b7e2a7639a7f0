-- ===== src/Architect/Topology/Images.antt =====
-- `move_package` out of the base layer: the image of a fleet is its layer on the base layer.
use yoinkc.Base.{
  String, ◌≡◌, refl, ◌∙◌, ap, Bool, true, false, ◌||◌, Option, none, some, List, [], ◌∷◌, ◌++◌, map,
  arith, string_eq, if◌then◌else◌, All, contains, contains-append, ◌==◌, ==_refl, ok,
}
use mathlib.Core.List.{map-map}
use yoinkc.Base.Dict.{is_some}
use yoinkc.Architect.Topology.{
  FleetInfo, Layer, LayerTopology, find_layer, update_layer, remove_first, add_package,
  drop_package, broadcast, recalc_all, moved, move_package, require_layer, require_package,
}
use yoinkc.Architect.Topology.Moves.{packages-recalc_all}

-- A package of the image of a fleet: its layer or the base layer has it.
abbrev pub in_image : String → List String → List String → Bool
in_image q base packages = contains base q || contains packages q

-- What is left of the list without the package has at least every other name.
contains-remove_first :
    (p q : String) (xs : List String)
    → (q == p) ≡ false
    → contains (remove_first p xs) q ≡ contains xs q
unfolding remove_first contains
contains-remove_first p q [] h = refl
contains-remove_first p q (x ∷ xs) h = ground (arith, contains-remove_first p q xs h)

abbrev with_package : String → List String → List String
with_package p xs = if contains xs p then xs else xs ++ (p ∷ [])

contains-with_package :
    (p q : String) (xs : List String) → contains (with_package p xs) q ≡ (contains xs q || q == p)
unfolding contains
contains-with_package p q xs = ground (arith, contains-append xs (p ∷ []) q)

-- The lists of packages of the derived layers.
abbrev packages_of : List Layer → List (List String)
packages_of layers = map (λ l. l.packages) layers

broadcast-has :
    (p : String) (derived : List Layer)
    → All (λ l. is_some l.parent ≡ true) derived
    → All (λ ps. contains ps p ≡ true) (packages_of (broadcast p derived))
unfolding broadcast add_package contains
broadcast-has p [] h = tt
broadcast-has p (l ∷ derived) h =
    ground (arith, broadcast-has p derived h.1, contains-with_package p p l.packages, ==_refl p)

broadcast-keeps :
    (p q : String) (base : List String) (derived : List Layer)
    → contains base p ≡ true
    → All (λ l. is_some l.parent ≡ true) derived
    → map (in_image q (remove_first p base)) (packages_of (broadcast p derived))
      ≡ map (in_image q base) (packages_of derived)
unfolding broadcast add_package contains
broadcast-keeps p q base [] k h = refl
broadcast-keeps p q base (l ∷ derived) k h = ground (
  arith,
  broadcast-keeps p q base derived k h.1,
  contains-with_package p q l.packages,
  contains-remove_first p q base,
)

update_layer-head :
    (p : String) (base : Layer) (derived : List Layer)
    → base.name ≡ "base"
    → update_layer "base" (drop_package p) (base ∷ derived) ≡ drop_package p base ∷ derived
unfolding update_layer
update_layer-head p base derived n = ground (arith, n, ==_refl {A = String} "base")

broadcast-head :
    (p : String) (base : Layer) (derived : List Layer)
    → base.parent ≡ none
    → broadcast p (drop_package p base ∷ derived) ≡ drop_package p base ∷ broadcast p derived
unfolding broadcast drop_package
broadcast-head p base derived o = ground (arith, o)

moved-broadcast :
    (p to_layer : String) (layers : List Layer)
    → moved p "base" to_layer layers ≡ broadcast p (update_layer "base" (drop_package p) layers)
unfolding moved
moved-broadcast p to_layer layers = refl

moved-base :
    (p to_layer : String) (base : Layer) (derived : List Layer)
    → base.name ≡ "base"
    → base.parent ≡ none
    → moved p "base" to_layer (base ∷ derived) ≡ drop_package p base ∷ broadcast p derived
moved-base p to_layer base derived n o =
    moved-broadcast p to_layer (base ∷ derived)
    ∙ ap (broadcast p) (update_layer-head p base derived n)
    ∙ broadcast-head p base derived o

is_some-some : {A : Type 0} (o : Option A) → is_some o ≡ true → (a : A) × (o ≡ some a)
is_some-some (some a) h = (a, refl)
is_some-some none h = cc

find_layer-head :
    (base : Layer) (derived : List Layer)
    → base.name ≡ "base"
    → find_layer "base" (base ∷ derived) ≡ some base
unfolding find_layer
find_layer-head base derived n = ground (arith, n, ==_refl {A = String} "base")

move_package-succeeds :
    (p from_layer to_layer : String) (src dst : Layer) (topo : LayerTopology)
    → find_layer from_layer topo.layers ≡ some src
    → find_layer to_layer topo.layers ≡ some dst
    → contains src.packages p ≡ true
    → move_package p from_layer to_layer topo
      ≡ ok (record topo { layers = recalc_all (moved p from_layer to_layer topo.layers) })
unfolding move_package require_layer require_package
move_package-succeeds p from_layer to_layer src dst topo s d k = rw (s, d, k)

-- In a topology of a base layer and of layers that have a parent, a move of a package of the base layer
-- to an existing layer succeeds, each derived layer has the package afterwards, and for every name
-- each derived layer on the base layer has it after the move exactly if it had it before.
pub move_package-keeps_images :
    (p to_layer : String) (base : Layer) (derived : List Layer) (fleets : List FleetInfo)
    → base.name ≡ "base"
    → base.parent ≡ none
    → All (λ l. is_some l.parent ≡ true) derived
    → contains base.packages p ≡ true
    → is_some (find_layer to_layer (base ∷ derived)) ≡ true
    → (after : LayerTopology) × (new_base : List String) × (new_derived : List (List String))
      × (move_package p "base" to_layer (record { layers = base ∷ derived; fleets = fleets })
          ≡ ok after)
      × (map (λ l. l.packages) after.layers ≡ new_base ∷ new_derived)
      × All (λ ps. contains ps p ≡ true) new_derived
      × ((q : String)
          → map (in_image q new_base) new_derived
            ≡ map (λ l. in_image q base.packages l.packages) derived)
unfolding move_package
move_package-keeps_images p to_layer base derived fleets n o h k t =
    let layers = base ∷ derived in
    let (dst, found) = is_some-some (find_layer to_layer layers) t in
    let topo : LayerTopology = record { layers = layers; fleets = fleets } in
    (
      record topo { layers = recalc_all (moved p "base" to_layer layers) },
      remove_first p base.packages,
      packages_of (broadcast p derived),
      move_package-succeeds p "base" to_layer base dst topo (find_layer-head base derived n) found
          k,
      packages-recalc_all (moved p "base" to_layer layers)
          ∙ ap packages_of (moved-base p to_layer base derived n o),
      broadcast-has p derived h,
      λ q. broadcast-keeps p q base.packages derived k h ∙ map-map _ _ derived,
    )
