-- ===== src/Fleet/Dedup/Strings.antt =====
-- The unions of lists of texts: every text of an input once, and `None` only for no input.
use yoinkc.Base.{
  String, ◌≡◌, refl, ◌∙◌, ◌&&◌, Bool, false, ◌||◌, Option, none, some, List, [], ◌∷◌, ◌++◌, arith,
  any, contains, contains-append, Distinct, ◌==◌, string_eq, if◌then◌else◌,
}
use yoinkc.Base.Dict.{Dict, lookup, upsert, updated, lookup-upsert, is_some}
use yoinkc.Fleet.Dedup.{
  dedup_items, dedup_lists, deduplicate_strings, present, dedup_present,
  deduplicate_optional_strings, absorb_tree, absorb_trees, some_if_any, merge_dep_trees, add_deps,
}

Distinct-append_new :
    (xs : List String) (x : String)
    → contains xs x ≡ false
    → Distinct xs
    → Distinct (xs ++ (x ∷ []))
unfolding contains
Distinct-append_new [] x n h = (refl, tt)
Distinct-append_new (y ∷ ys) x n h =
    ground (arith, Distinct-append_new ys x, contains-append ys (x ∷ []) y)

dedup_items-Distinct :
    (result items : List String) → Distinct result → Distinct (dedup_items result items)
unfolding dedup_items
dedup_items-Distinct result [] h = h
dedup_items-Distinct result (x ∷ items) h =
    dedup_items-Distinct (if contains result x then result else result ++ (x ∷ [])) items
      (ground (arith, Distinct-append_new result x))

contains-dedup_items :
    (result items : List String) (s : String)
    → contains (dedup_items result items) s ≡ (contains result s || contains items s)
unfolding dedup_items contains
contains-dedup_items result [] s = ground arith
contains-dedup_items result (x ∷ items) s = ground (
  arith,
  contains-dedup_items result items s,
  contains-dedup_items (result ++ (x ∷ [])) items s,
  contains-append result (x ∷ []) s,
)

dedup_lists-Distinct :
    (result : List String) (all_lists : List (List String))
    → Distinct result
    → Distinct (dedup_lists result all_lists)
unfolding dedup_lists
dedup_lists-Distinct result [] h = h
dedup_lists-Distinct result (items ∷ all_lists) h =
    dedup_lists-Distinct (dedup_items result items) all_lists (dedup_items-Distinct result items h)

contains-dedup_lists :
    (result : List String) (all_lists : List (List String)) (s : String)
    → contains (dedup_lists result all_lists) s
      ≡ (contains result s || any (λ items. contains items s) all_lists)
unfolding dedup_lists any
contains-dedup_lists result [] s = ground arith
contains-dedup_lists result (items ∷ all_lists) s = ground (
  arith,
  contains-dedup_lists (dedup_items result items) all_lists s,
  contains-dedup_items result items s,
)

-- The union of lists of texts has no text twice, and has a text exactly if one of the lists has it.
pub deduplicate_strings-union :
    (all_lists : List (List String))
    → Distinct (deduplicate_strings all_lists)
      × ((s : String)
          → contains (deduplicate_strings all_lists) s ≡ any (λ items. contains items s) all_lists)
unfolding deduplicate_strings contains
deduplicate_strings-union all_lists =
    (dedup_lists-Distinct [] all_lists tt, contains-dedup_lists [] all_lists)

-- A leaf with a dep, in a dict of deps and in a tree that may be missing.
abbrev pub deps_at : Option (List String) → String → Bool
deps_at none d = false
deps_at (some deps) d = contains deps d

abbrev pub entry_has : String → String → String × List String → Bool
entry_has leaf d entry = leaf == entry.0 && contains entry.1 d

abbrev pub tree_has : String → String → Option (Dict String (List String)) → Bool
tree_has leaf d none = false
tree_has leaf d (some tree) = any (entry_has leaf d) tree

deps_at-updated :
    (deps : List String) (o : Option (List String)) (d : String)
    → contains (updated deps (λ old. add_deps old deps) o) d ≡ (deps_at o d || contains deps d)
deps_at-updated deps none d = refl
deps_at-updated deps (some old) d = contains-dedup_items old deps d

deps_at-absorb_tree :
    (leaf d : String) (merged tree : Dict String (List String))
    → deps_at (lookup leaf (absorb_tree merged tree)) d
      ≡ (deps_at (lookup leaf merged) d || any (entry_has leaf d) tree)
unfolding absorb_tree any
deps_at-absorb_tree leaf d merged [] = ground arith
deps_at-absorb_tree leaf d merged ((l, deps) ∷ tree) = ground (
  arith,
  deps_at-absorb_tree leaf d (upsert l deps (λ old. add_deps old deps) merged) tree,
  lookup-upsert leaf l deps (λ old. add_deps old deps) merged,
  deps_at-updated deps (lookup l merged) d,
)

deps_at-absorb_trees :
    (leaf d : String) (merged : Dict String (List String))
    (trees : List (Option (Dict String (List String))))
    → deps_at (lookup leaf (absorb_trees merged trees)) d
      ≡ (deps_at (lookup leaf merged) d || any (tree_has leaf d) trees)
unfolding absorb_trees any
deps_at-absorb_trees leaf d merged [] = ground arith
deps_at-absorb_trees leaf d merged (none ∷ trees) = deps_at-absorb_trees leaf d merged trees
deps_at-absorb_trees leaf d merged (some tree ∷ trees) = ground (
  arith,
  deps_at-absorb_trees leaf d (absorb_tree merged tree) trees,
  deps_at-absorb_tree leaf d merged tree,
)

-- The merged dict, `None` read as the empty dict.
abbrev pub merged_deps : Option (Dict String (List String)) → String → String → Bool
merged_deps none leaf d = false
merged_deps (some merged) leaf d = deps_at (lookup leaf merged) d

merged_deps-some_if_any :
    (merged : Dict String (List String)) (leaf d : String)
    → merged_deps (some_if_any merged) leaf d ≡ deps_at (lookup leaf merged) d
unfolding some_if_any lookup
merged_deps-some_if_any [] leaf d = refl
merged_deps-some_if_any (e ∷ merged) leaf d = refl

-- In the merged tree a leaf has a dep exactly if it has it in one of the trees.
pub merge_dep_trees-union :
    (trees : List (Option (Dict String (List String)))) (leaf d : String)
    → merged_deps (merge_dep_trees trees) leaf d ≡ any (tree_has leaf d) trees
unfolding merge_dep_trees lookup
merge_dep_trees-union trees leaf d =
    merged_deps-some_if_any (absorb_trees [] trees) leaf d ∙ deps_at-absorb_trees leaf d [] trees

abbrev pub texts_at : Option (List String) → String → Bool
texts_at none s = false
texts_at (some texts) s = contains texts s

any-present :
    (raw : List (Option (List String))) (s : String)
    → any (λ items. contains items s) (present raw) ≡ any (λ o. texts_at o s) raw
unfolding present any
any-present [] s = refl
any-present (none ∷ raw) s = any-present raw s
any-present (some items ∷ raw) s = ground (arith, any-present raw s)

texts_at-dedup_present :
    (lists : List (List String)) (s : String)
    → texts_at (dedup_present lists) s ≡ any (λ items. contains items s) lists
unfolding dedup_present any
texts_at-dedup_present [] s = refl
texts_at-dedup_present (items ∷ lists) s = (deduplicate_strings-union (items ∷ lists)).1 s

is_some-dedup_present :
    (raw : List (Option (List String))) → is_some (dedup_present (present raw)) ≡ any is_some raw
unfolding dedup_present present any
is_some-dedup_present [] = refl
is_some-dedup_present (none ∷ raw) = is_some-dedup_present raw
is_some-dedup_present (some items ∷ raw) = refl

-- The union of lists that may be missing is there exactly if one of the lists is, and has a text exactly
-- if one of the lists has it.
pub deduplicate_optional_strings-union :
    (raw : List (Option (List String)))
    → (is_some (deduplicate_optional_strings raw) ≡ any is_some raw)
      × ((s : String) → texts_at (deduplicate_optional_strings raw) s ≡ any (λ o. texts_at o s) raw)
unfolding deduplicate_optional_strings
deduplicate_optional_strings-union raw =
    (is_some-dedup_present raw, λ s. texts_at-dedup_present (present raw) s ∙ any-present raw s)
