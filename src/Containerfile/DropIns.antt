-- ===== src/Containerfile/DropIns.antt =====
-- renderers/containerfile/services.py: the drop-ins of systemd units.
use yoinkc.Base.{
  String, ◌<>◌, not, ◌&&◌, List, [], ◌∷◌, ◌++◌, keep_if, contains, length, ◌==◌, string_eq,
  if◌then◌else◌,
}
use yoinkc.Base.Text.{is_empty, starts_with, split, join, decimal}
use yoinkc.Schema.{SystemdDropIn}

all_but_last : List String → List String
all_but_last [] = []
all_but_last (x ∷ []) = []
all_but_last (x ∷ y ∷ xs) = x ∷ all_but_last (y ∷ xs)

or_dot : List String → String
unfolding join
or_dot [] = "."
or_dot (x ∷ xs) = join "/" (x ∷ xs)

-- str(Path(path).parent): empty parts and dots are no parts
unfoldable pub parent_of : String → String
unfolding all_but_last or_dot keep_if split starts_with string_eq join
parent_of path =
    let parts =
      all_but_last (keep_if (λ part. not (is_empty part) && not (part == ".")) (split 47 path)) in
    if starts_with path "/" then "/" <> join "/" parts else or_dot parts

unfoldable pub drop_in_dirs : List String → List SystemdDropIn → List String
unfolding parent_of contains
drop_in_dirs seen [] = []
drop_in_dirs seen (di ∷ drop_ins) =
    let dropin_dir = parent_of di.path in
    let line = "#   " <> (di.unit <> (": " <> (dropin_dir <> "/"))) in
    if contains seen dropin_dir
    then drop_in_dirs seen drop_ins
    else line ∷ drop_in_dirs (dropin_dir ∷ seen) drop_ins

unfoldable pub drop_in_lines : List SystemdDropIn → List String
unfolding drop_in_dirs decimal
drop_in_lines [] = []
drop_in_lines (di ∷ included) =
    ("# === Systemd Drop-in Overrides ===" ∷ [])
    ++ ((("# Detected: "
            <> (decimal (length (di ∷ included))
                <> " drop-in override(s) — included in COPY config/etc/ below"))
          ∷ [])
        ++ (drop_in_dirs [] (di ∷ included) ++ ("" ∷ [])))
