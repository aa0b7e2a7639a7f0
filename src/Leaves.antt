-- ===== src/Leaves.antt =====
-- `_classify_leaf_auto` of inspectors/rpm.py: which added packages were asked for, and which of the others they pull in.
-- A set is a list without repetition; the commands run in a world that is a parameter.
pub mod Walk
pub mod Queries
use Prim.Native.Char.{code}
use yoinkc.Base.{
  ℕ, zero, suc, ◌+◌, String, ◌<>◌, Bool, true, false, not, ◌&&◌, ◌||◌, Option, none, some, List, [],
  ◌∷◌, ◌++◌, map, keep_if, contains, length, ◌==◌, string_eq, if◌then◌else◌,
}
use yoinkc.Base.Dict.{Dict, lookup, upsert, get_or, values}
use yoinkc.Base.Sort.{sorted, unique}
use yoinkc.Base.Text.{is_empty, starts_with, split}
use yoinkc.Base.Slices.{strip, split_lines, split_words, holds_text}
use yoinkc.Executor.{RunResult, failed}
use yoinkc.Nevra.{split_version}

-- depends_on.get(name, set())
unfoldable pub deps_of : Dict String (List String) → String → List String
unfolding lookup
deps_of depends_on name = get_or (lookup name depends_on) []

-- The body of the loop over the stack, whose top comes first: what is reachable, and the stack.
unfoldable pub visit :
    Dict String (List String) → String → List String → List String → List String × List String
unfolding contains deps_of keep_if
visit depends_on dep reachable stack = if contains reachable dep then (reachable, stack) else (
  dep ∷ reachable,
  keep_if (λ d. not (contains (dep ∷ reachable) d)) (deps_of depends_on dep) ++ stack,
)

unfoldable pub walk :
    ℕ → Dict String (List String) → List String → List String → Option (List String)
unfolding visit
walk zero depends_on reachable stack = none
walk (suc fuel) depends_on reachable [] = some reachable
walk (suc fuel) depends_on reachable (dep ∷ stack) =
    let (reachable', stack') = visit depends_on dep reachable stack in
    walk fuel depends_on reachable' stack'

-- How much the packages that are not reached yet can push on the stack.
unfoldable pub weight : List String → Dict String (List String) → ℕ
unfolding contains
weight reachable [] = 0
weight reachable ((name, deps) ∷ depends_on) =
    (if contains reachable name then 0 else length deps) + weight reachable depends_on

-- What a package pulls in: the walk, with fuel that is enough.
unfoldable pub reachable_from : Dict String (List String) → String → Option (List String)
unfolding walk weight
reachable_from depends_on leaf =
    let stack = deps_of depends_on leaf in
    walk (suc (length stack + weight [] depends_on)) depends_on [] stack

-- sorted(deps & auto_set)
unfoldable pub pulled_in : List String → List String → List String
unfolding sorted keep_if unique contains
pulled_in auto deps = sorted (keep_if (contains auto) (unique deps))

unfoldable pub tree_entry :
    Bool → Dict String (List String) → List String → String → String × List String
unfolding pulled_in reachable_from
tree_entry transitive depends_on auto leaf =
    let deps =
      if transitive then deps_of depends_on leaf else get_or (reachable_from depends_on leaf) [] in
    (leaf, pulled_in auto deps)

-- All values of the graph in one set.
unfoldable pub depended_on : Dict String (List String) → List String
unfolding unique
depended_on [] = []
depended_on ((name, deps) ∷ depends_on) = unique (deps ++ depended_on depends_on)

unfoldable pub by_graph : List String → Dict String (List String) → List String × List String
unfolding sorted keep_if depended_on contains
by_graph added_names depends_on = (
  sorted (keep_if (λ n. not (contains (depended_on depends_on) n)) added_names),
  sorted (depended_on depends_on),
)

by_user : List String → Dict String (List String) → List String → List String × List String
by_user [] depends_on leaf_set = ([], [])
by_user (n ∷ added_names) depends_on [] = by_graph (n ∷ added_names) depends_on
by_user (n ∷ added_names) depends_on (leaf ∷ leaf_set) = (
  sorted (leaf ∷ leaf_set),
  sorted (keep_if (λ m. not (contains (leaf ∷ leaf_set) m)) (n ∷ added_names)),
)

-- Leaf and auto packages.
unfoldable pub leaf_and_auto :
    Option (List String) → List String → Dict String (List String) → List String × List String
unfolding by_graph by_user keep_if contains sorted
leaf_and_auto none added_names depends_on = by_graph added_names depends_on
leaf_and_auto (some user_installed) added_names depends_on =
    by_user added_names depends_on (keep_if (contains user_installed) added_names)

unfoldable pub classify :
    Option (List String)
    → Bool
    → List String
    → Dict String (List String)
    → List String × List String × Dict String (List String)
unfolding leaf_and_auto tree_entry
classify user_installed transitive added_names depends_on =
    let (leaf, auto) = leaf_and_auto user_installed added_names depends_on in
    (leaf, auto, map (tree_entry transitive depends_on auto) leaf)
