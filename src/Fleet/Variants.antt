-- ===== src/Fleet/Variants.antt =====
-- `_normalize_content`, `_content_hash` and `_auto_select_variants` of fleet/merge.py.
-- SHA-256 (`hashlib`) and the `repr` of a list of pairs of texts are parameters.
pub mod Select
pub mod Kept
use Prim.Native.Char.{Char, code}
use yoinkc.Base.{
  ◌≡◌, refl, ℕ, suc, String, Bool, true, false, not, ◌&&◌, ◌||◌, Option, none, some, List, [], ◌∷◌,
  ◌++◌, map, leb, keep_if, ◌==◌, string_eq, nat_eq, if◌then◌else◌,
}
use yoinkc.Base.Dict.{Dict, values, lookup, upsert, get_or, is_some}
use yoinkc.Base.Text.{split, join, rstrip}
use yoinkc.Base.Sort.{sort_by, str_leb}
use yoinkc.Schema.{
  FleetPrevalence, ConfigFileEntry, SystemdDropIn, QuadletUnit, ComposeFile, ComposeService,
}
use yoinkc.Fleet.Item.{Item}
use yoinkc.Fleet.Item.Instances.{config_file_entry, systemd_drop_in, quadlet_unit, compose_file}

-- What the standard library supplies.
pub record Runtime : Type 0 where
  pub sha256_hex : String → String
  pub repr_pairs : List (String × String) → String

abbrev newline : Char
newline = "\n"

-- text.replace("\r\n", "\n")
unfoldable pub replace_crlf : String → String
unfolding nat_eq
replace_crlf String.[] = String.[]
replace_crlf (String.◌∷◌ c String.[]) = String.◌∷◌ c String.[]
replace_crlf (String.◌∷◌ c (String.◌∷◌ d s)) =
    let short = String.◌∷◌ newline (replace_crlf s) in
    let long = String.◌∷◌ c (replace_crlf (String.◌∷◌ d s)) in
    if code c == 13 && code d == 10 then short else long

-- text.replace("\r", "\n")
unfoldable pub replace_cr : String → String
unfolding nat_eq
replace_cr String.[] = String.[]
replace_cr (String.◌∷◌ c s) = String.◌∷◌ (if code c == 13 then newline else c) (replace_cr s)

-- `_normalize_content`
unfoldable pub normalize_content : String → String
unfolding replace_crlf replace_cr split join rstrip
normalize_content text = join "\n" (map rstrip (split 10 (replace_cr (replace_crlf text))))

module _ (r : Runtime) where
  -- `_content_hash`
  unfoldable pub content_hash : String → String
  content_hash text = r.sha256_hex text

-- The attributes that the selection reads and writes. `digest_text` is the text whose hash breaks a tie.
pub record Variant (A : Type 0) : Type 0 where
  pub item : Item A
  pub path : A → String
  pub set_tie : Bool → A → A
  pub set_tie_winner : Bool → A → A
  pub tie : A → Bool
  pub tie_winner : A → Bool
  pub digest_text : Runtime → A → String
  pub fleet-set_tie : (b : Bool) (a : A) → item.fleet (set_tie b a) ≡ item.fleet a
  pub fleet-set_tie_winner : (b : Bool) (a : A) → item.fleet (set_tie_winner b a) ≡ item.fleet a

-- An object is its position in `items` with its attributes.
abbrev pub Ref : Type 0 → Type 0
Ref A = ℕ × A

abbrev pub fleet_count : Option FleetPrevalence → ℕ
fleet_count none = 0
fleet_count (some f) = f.count

module _ {A : Type 0} ⦃x : Variant A⦄ where
  open x use {item, path, set_tie, set_tie_winner, digest_text}

  abbrev pub count_of : Ref A → ℕ
  count_of v = fleet_count (item.fleet v.1)

  abbrev write : (A → A) → Ref A → Ref A
  write f (n, v) = (n, f v)

  -- v.tie = True; v.tie_winner = won; v.include = won
  abbrev mark_tied : Bool → A → A
  mark_tied won v = item.set_include won (set_tie_winner won (set_tie true v))

  -- The tied variants in the order of their digests: the first wins.
  abbrev mark_first : List (Ref A) → List (Ref A)
  mark_first [] = []
  mark_first (v ∷ vs) = write (mark_tied true) v ∷ map (write (mark_tied false)) vs

  abbrev digest_leb : Runtime → Ref A → Ref A → Bool
  digest_leb r v w =
      str_leb (content_hash r (digest_text r v.1)) (content_hash r (digest_text r w.1))

  unfoldable pub select_sorted : Runtime → List (Ref A) → List (Ref A)
  select_sorted r [] = []
  select_sorted r (v ∷ []) = write (item.set_include true) v ∷ []
  select_sorted r (v ∷ w ∷ vs) =
      let variants = v ∷ w ∷ vs in
      let top_count = count_of v in
      if count_of v == count_of w
      then mark_first (sort_by (digest_leb r) (keep_if (λ u. count_of u == top_count) variants))
        ++ map (write (item.set_include false))
            (keep_if (λ u. not (count_of u == top_count)) variants)
      else write (item.set_include true) v ∷ map (write (item.set_include false)) (w ∷ vs)

  -- The body of the loop over `order`; a single variant is not sorted, and the sort leaves it alone.
  unfoldable pub select_group : Runtime → List (Ref A) → List (Ref A)
  unfolding select_sorted
  select_group r variants =
      select_sorted r (sort_by (λ v w. leb (count_of w) (count_of v)) variants)

  -- The first loop: the items with a prevalence, by path.
  unfoldable pub group_variants :
      ℕ → List A → Dict String (List (Ref A)) → Dict String (List (Ref A))
  group_variants n [] groups = groups
  group_variants n (v ∷ items) groups = group_variants (suc n) items (
      if is_some (item.fleet v)
      then upsert (path v) ((n, v) ∷ []) (λ vs. vs ++ ((n, v) ∷ [])) groups
      else groups)

  select_groups : Runtime → List (List (Ref A)) → List (Ref A)
  select_groups r [] = []
  select_groups r (g ∷ gs) = select_group r g ++ select_groups r gs

  -- The items after the objects have been written.
  write_back : ℕ → List (Ref A) → List A → List A
  write_back n refs [] = []
  write_back n refs (v ∷ items) = get_or (lookup n refs) v ∷ write_back (suc n) refs items

  -- `_auto_select_variants`
  unfoldable pub auto_select_variants : Runtime → List A → List A
  unfolding group_variants select_groups select_group write_back values lookup
  auto_select_variants r items =
      write_back 0 (select_groups r (values (group_variants 0 items []))) items

abbrev pub image_pairs : List ComposeService → List (String × String)
image_pairs = map (λ img. (img.service, img.image))

abbrev pair_leb : String × String → String × String → Bool
pair_leb p q = (p.0 == q.0 && str_leb p.1 q.1) || (not (p.0 == q.0) && str_leb p.0 q.0)

-- str(sorted((img.service, img.image) for img in images))
unfoldable pub images_text : Runtime → List ComposeService → String
unfolding sort_by str_leb
images_text r images = r.repr_pairs (sort_by pair_leb (image_pairs images))

instance abbrev pub config_file_variant : Variant ConfigFileEntry
config_file_variant = record {
  item = config_file_entry;
  path = λ v. v.path;
  set_tie = λ b v. record v { tie = b };
  set_tie_winner = λ b v. record v { tie_winner = b };
  tie = λ v. v.tie;
  tie_winner = λ v. v.tie_winner;
  digest_text = λ r v. normalize_content v.content;
  fleet-set_tie = λ b a. refl;
  fleet-set_tie_winner = λ b a. refl;
}

instance abbrev pub drop_in_variant : Variant SystemdDropIn
drop_in_variant = record {
  item = systemd_drop_in;
  path = λ v. v.path;
  set_tie = λ b v. record v { tie = b };
  set_tie_winner = λ b v. record v { tie_winner = b };
  tie = λ v. v.tie;
  tie_winner = λ v. v.tie_winner;
  digest_text = λ r v. normalize_content v.content;
  fleet-set_tie = λ b a. refl;
  fleet-set_tie_winner = λ b a. refl;
}

instance abbrev pub quadlet_variant : Variant QuadletUnit
quadlet_variant = record {
  item = quadlet_unit;
  path = λ v. v.path;
  set_tie = λ b v. record v { tie = b };
  set_tie_winner = λ b v. record v { tie_winner = b };
  tie = λ v. v.tie;
  tie_winner = λ v. v.tie_winner;
  digest_text = λ r v. normalize_content v.content;
  fleet-set_tie = λ b a. refl;
  fleet-set_tie_winner = λ b a. refl;
}

instance abbrev pub compose_variant : Variant ComposeFile
compose_variant = record {
  item = compose_file;
  path = λ v. v.path;
  set_tie = λ b v. record v { tie = b };
  set_tie_winner = λ b v. record v { tie_winner = b };
  tie = λ v. v.tie;
  tie_winner = λ v. v.tie_winner;
  digest_text = λ r v. images_text r v.images;
  fleet-set_tie = λ b a. refl;
  fleet-set_tie_winner = λ b a. refl;
}
