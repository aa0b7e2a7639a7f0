-- ===== src/Tests/Fleet.antt =====
-- The unions, the names and the private view of a fleet.
use yoinkc.Base.{
  suc, String, ◌≡◌, refl, Option, none, some, List, [], ◌∷◌, length, any, contains, Distinct,
  string_eq,
}
use yoinkc.Base.Dict.{upsert}
use yoinkc.Base.Text.{decimal}
use yoinkc.Schema.{InspectionSnapshot}
use yoinkc.Fleet.Dedup.{deduplicate_strings, merge_dep_trees}
use yoinkc.Fleet.Dedup.Strings
use yoinkc.Fleet.Dedup.Strings.{merged_deps, tree_has, texts_at}
use yoinkc.Fleet.Names.{
  segments_of, first_depths, disambiguate, total_segments, compute_display_names,
}
use yoinkc.Fleet.Names.Loop
use yoinkc.Fleet.Strip.{strip_host_lists}
use yoinkc.Fleet.Strip.Private
use yoinkc.Fleet.Strip.Private.{NamesNoHosts}
use yoinkc.Tests.Data.{rpm_package, no_rpm, snapshot_of}

abbrev lists : List (List String)
lists = ("a" ∷ "b" ∷ []) ∷ ("b" ∷ "c" ∷ []) ∷ []

deduplicate_strings-union_example :
    Distinct (deduplicate_strings lists)
    × ((s : String)
        → contains (deduplicate_strings lists) s ≡ any (λ items. contains items s) lists)
deduplicate_strings-union_example = Strings.deduplicate_strings-union lists

abbrev optional_lists : List (Option (List String))
optional_lists = some ("a" ∷ []) ∷ none ∷ []

merge_dep_trees-union_example :
    merged_deps
      (merge_dep_trees (some (("vim", "gpm" ∷ []) ∷ []) ∷ some (("vim", "perl" ∷ []) ∷ []) ∷ []))
      "vim"
      "perl"
    ≡ any
        (tree_has "vim" "perl")
        (some (("vim", "gpm" ∷ []) ∷ []) ∷ some (("vim", "perl" ∷ []) ∷ []) ∷ [])
merge_dep_trees-union_example =
    Strings.merge_dep_trees-union
      (some (("vim", "gpm" ∷ []) ∷ []) ∷ some (("vim", "perl" ∷ []) ∷ []) ∷ []) "vim" "perl"

abbrev hostnames : List String
hostnames = "web.east.corp" ∷ "web.west.corp" ∷ "db.corp" ∷ []

compute_display_names-total_example :
    (labels : List String) × (disambiguate
        (suc (total_segments (segments_of hostnames)))
        (segments_of hostnames)
        (first_depths hostnames)
      ≡ some labels)
    × (compute_display_names hostnames ≡ labels)
    × (length labels ≡ 3)
compute_display_names-total_example = Loop.compute_display_names-total hostnames

-- Two pairs of equal hostnames get the same two names.
repeated_names :
    compute_display_names ("a.x" ∷ "a.x" ∷ "a.y" ∷ "a.y" ∷ [])
    ≡ "a (1)" ∷ "a (2)" ∷ "a (1)" ∷ "a (2)" ∷ []
unfolding compute_display_names upsert decimal
repeated_names = refl

shortest_names : compute_display_names hostnames ≡ "web.east" ∷ "web.west" ∷ "db" ∷ []
unfolding compute_display_names upsert
shortest_names = refl

abbrev known_host : InspectionSnapshot
known_host = snapshot_of (
    some (record no_rpm {
      packages_added =
          record (rpm_package "vim" "9.0") {
            fleet = some (record { count = 1; total = 2; hosts = "web1" ∷ [] });
          }
          ∷ [];
    }))

strip_host_lists-NamesNoHosts_example : NamesNoHosts (strip_host_lists known_host)
strip_host_lists-NamesNoHosts_example = Private.strip_host_lists-NamesNoHosts known_host
