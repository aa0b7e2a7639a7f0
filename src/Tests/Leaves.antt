-- ===== src/Tests/Leaves.antt =====
-- Leaf packages of small graphs.
use yoinkc.Base.{
  String, ◌≡◌, refl, ◌↔◌, true, false, none, some, List, [], ◌∷◌, contains, string_eq,
}
use yoinkc.Base.Dict.{Dict}
use yoinkc.Leaves.{deps_of, reachable_from, classify}
use yoinkc.Leaves.Walk
use yoinkc.Leaves.Walk.{Reaches}
use yoinkc.Leaves.Queries.{provider_of}

-- httpd needs apr, and apr needs lua.
abbrev chain : Dict String (List String)
chain = ("httpd", "apr" ∷ []) ∷ ("apr", "lua" ∷ []) ∷ ("lua", []) ∷ []

one_leaf :
    classify none false ("httpd" ∷ "apr" ∷ "lua" ∷ []) chain
    ≡ ("httpd" ∷ [], "apr" ∷ "lua" ∷ [], ("httpd", "apr" ∷ "lua" ∷ []) ∷ [])
unfolding classify string_eq
one_leaf = refl

-- Of two packages that need each other, neither is a leaf, and no leaf pulls them in.
mutual_dependency :
    classify none false ("a" ∷ "b" ∷ []) (("a", "b" ∷ []) ∷ ("b", "a" ∷ []) ∷ [])
    ≡ ([], "a" ∷ "b" ∷ [], [])
unfolding classify string_eq
mutual_dependency = refl

provider : provider_of "python3-libs-3.9.18-3.el9.x86_64" ≡ "python3-libs"
unfolding provider_of
provider = refl

reachable_from-Reaches_example :
    (r : List String) × (reachable_from chain "httpd" ≡ some r)
    × ((n : String) → (contains r n ≡ true) ↔ Reaches chain (deps_of chain "httpd") n)
reachable_from-Reaches_example = Walk.reachable_from-Reaches chain "httpd"
