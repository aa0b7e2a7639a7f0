-- ===== src/Redact/Sections/Excluded.antt =====
-- Files under an excluded path in `redact_snapshot`.
use mathlib.Core.Path.{subst}
use mathlib.Core.List.{Perm}
use mathlib.Core.List.Perm
use yoinkc.Base.{
  ◌≡◌, refl, sym, ap, ◌∙◌, ◌⊎◌, inl, inr, Bool, true, false, Bool-cases, List, [], ◌∷◌, map, All,
  length, ==_refl, nat_eq, string_eq,
}
use yoinkc.Base.Sort.{str_leb}
use yoinkc.Base.Sort.Laws.{sort_by-perm, All-sort_by, length-sort_by}
use yoinkc.Schema.{ConfigFileEntry, ConfigSection, NonRpmSoftwareSection}
use yoinkc.Redact.Scan.{Scan, Redactor, pure, ◌>>=◌, each_item}
use yoinkc.Redact.Texts.{Regex, is_excluded_path}
use yoinkc.Redact.Sections.{
  exclude_file, redact_file, redact_config, redact_env_file, redact_non_rpm, excluded_placeholder,
  sort_on,
}

module _ {A : Type 0} (f : A → Redactor (A × Bool)) where
  -- What holds of every result holds of all items after the loop.
  each_item-All :
      (P : A → Type 0) (items : List A) (s : Scan)
      → ((a : A) (t : Scan) → P (f a t).0.0)
      → All P (each_item f items s).0.0
  unfolding each_item ◌>>=◌ pure
  each_item-All P [] s h = tt
  each_item-All P (a ∷ items) s h = (h a s, each_item-All P items (f a s).1 h)

  -- What every item keeps is kept in order.
  each_item-map :
      {B : Type 0} (key : A → B) (items : List A) (s : Scan)
      → ((a : A) (t : Scan) → key (f a t).0.0 ≡ key a)
      → map key (each_item f items s).0.0 ≡ map key items
  unfolding each_item ◌>>=◌ pure
  each_item-map key [] s h = refl
  each_item-map key (a ∷ items) s h = cc (h a s, each_item-map key items (f a s).1 h)

  length-each_item : (items : List A) (s : Scan) → length (each_item f items s).0.0 ≡ length items
  unfolding each_item ◌>>=◌ pure
  length-each_item [] s = refl
  length-each_item (a ∷ items) s = cc (length-each_item items (f a s).1)

  -- If no item counts as changed, the list does not.
  each_item-unchanged :
      (P : A → Type 0) (items : List A) (s : Scan)
      → ((a : A) (t : Scan) → P a → (f a t).0.1 ≡ false)
      → All P items
      → (each_item f items s).0.1 ≡ false
  unfolding each_item ◌>>=◌ pure
  each_item-unchanged P [] s h p = refl
  each_item-unchanged P (a ∷ items) s h p =
      rw (h a s p.0) (each_item-unchanged P items (f a s).1 h p.1)

module _ (re : Regex) where
  -- A file that is not under an excluded path, or that has lost its content and is left out.
  abbrev pub IsShut : ConfigFileEntry → Type 0
  IsShut f =
      (is_excluded_path re f.path ≡ false)
      ⊎ ((f.content ≡ excluded_placeholder) × (f.include ≡ false))

  redact_file-path : (f : ConfigFileEntry) (s : Scan) → (redact_file re f s).0.0.path ≡ f.path
  unfolding redact_file ◌>>=◌ pure exclude_file
  redact_file-path f s = elim (Bool-cases (is_excluded_path re f.path)) [
    | inl excluded ↦ rw excluded refl
    | inr other ↦ rw other refl
  ]

  redact_file-excluded :
      (f : ConfigFileEntry) (s : Scan)
      → is_excluded_path re f.path ≡ true
      → ((redact_file re f s).0.0.content ≡ excluded_placeholder)
        × ((redact_file re f s).0.0.include ≡ false)
  unfolding redact_file ◌>>=◌ pure exclude_file
  redact_file-excluded f s h = rw h (refl, refl)

  redact_file-IsShut : (f : ConfigFileEntry) (s : Scan) → IsShut (redact_file re f s).0.0
  redact_file-IsShut f s = elim (Bool-cases (is_excluded_path re f.path)) [
    | inl excluded ↦ inr (redact_file-excluded f s excluded)
    | inr other ↦ inl (ap (is_excluded_path re) (redact_file-path f s) ∙ other)
  ]

  -- After the scan of the config files, every file under an excluded path has the placeholder for its content and is
  -- left out, and the paths are those before the scan.
  pub redact_config-IsShut :
      (config : ConfigSection) (s : Scan)
      → (let files = (redact_config re config s).0.files in
          All IsShut files × Perm (map (λ f. f.path) files) (map (λ f. f.path) config.files))
  unfolding redact_config
  redact_config-IsShut config s =
      let scanned = sort_on (λ f. f.path) config.files in
      (
        each_item-All (redact_file re) IsShut scanned s redact_file-IsShut,
        subst (λ paths. Perm paths (map (λ f. f.path) config.files))
            (sym (each_item-map (redact_file re) (λ f. f.path) scanned s redact_file-path))
            (Perm.map (λ f. f.path) (sort_by-perm _ config.files)),
      )

  redact_env_file-excluded :
      (f : ConfigFileEntry) (s : Scan)
      → is_excluded_path re f.path ≡ true
      → (redact_env_file re f s).0.1 ≡ false
  unfolding redact_env_file ◌>>=◌ pure
  redact_env_file-excluded f s h = rw h refl

  -- If every env file is under an excluded path, the section keeps its files with their contents.
  pub redact_non_rpm-excluded :
      (section : NonRpmSoftwareSection) (s : Scan)
      → All (λ f. is_excluded_path re f.path ≡ true) section.env_files
      → (redact_non_rpm re section s).0.env_files ≡ section.env_files
  unfolding redact_non_rpm
  redact_non_rpm-excluded section s h =
      let scanned = sort_on (λ f. f.path) section.env_files in
      cc (
        each_item-unchanged (redact_env_file re) (λ f. is_excluded_path re f.path ≡ true) scanned s
            redact_env_file-excluded (All-sort_by _ _ section.env_files h),
        length-each_item (redact_env_file re) scanned s,
        length-sort_by (λ f g. str_leb f.path g.path) section.env_files,
        ==_refl (length section.env_files),
      )
