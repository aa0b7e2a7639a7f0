-- ===== src/Architect/Topology/Moves.antt =====
-- `move_package` and `copy_package`: which packages a layer has before and after, and when they raise.
use yoinkc.Base.{
  String, ◌≡◌, refl, sym, ◌∙◌, ap, Option, List, [], ◌∷◌, map, arith, string_eq, if◌then◌else◌,
}
use mathlib.Core.List.{map-map}
use yoinkc.Base.Dict.{is_some}
use yoinkc.Architect.Topology.{Layer, recalc_turbulence, update_layer, refresh, recalc_all}

-- What a layer is apart from its counters.
abbrev pub contents : Layer → String × Option String × List String
contents l = (l.name, l.parent, l.packages)

contents-update_layer :
    (name : String) (f : Layer → Layer) (layers : List Layer)
    → ((l : Layer) → contents (f l) ≡ contents l)
    → map contents (update_layer name f layers) ≡ map contents layers
unfolding update_layer
contents-update_layer name f [] h = refl
contents-update_layer name f (l ∷ layers) h =
    ground (arith, h l, contents-update_layer name f layers h)

contents-refresh : (layers : List Layer) (l : Layer) → contents (refresh layers l) ≡ contents l
unfolding recalc_turbulence
contents-refresh layers l = refl

-- Recalculation changes counters only.
contents-refresh_derived :
    (layers all : List Layer)
    → map contents (map (λ l. if is_some l.parent then refresh all l else l) layers)
      ≡ map contents layers
contents-refresh_derived [] all = refl
contents-refresh_derived (l ∷ layers) all =
    ground (arith, contents-refresh all l, contents-refresh_derived layers all)

pub contents-recalc_all :
    (layers : List Layer) → map contents (recalc_all layers) ≡ map contents layers
unfolding recalc_all
contents-recalc_all layers =
    contents-refresh_derived (update_layer "base" (refresh layers) layers) layers
    ∙ contents-update_layer "base" (refresh layers) layers (contents-refresh layers)

pub packages-recalc_all :
    (layers : List Layer) → map (λ l. l.packages) (recalc_all layers) ≡ map (λ l. l.packages) layers
packages-recalc_all layers =
    sym (map-map (λ (c : String × Option String × List String). c.2) contents (recalc_all layers))
    ∙ ap (map (λ (c : String × Option String × List String). c.2)) (contents-recalc_all layers)
    ∙ map-map (λ (c : String × Option String × List String). c.2) contents layers
