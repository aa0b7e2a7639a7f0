-- ===== src/Redact/Scan/Runs.antt =====
-- Runs of a redactor: it only reports findings and asks for tokens.
use mathlib.Core.List.{append-nil, append_assoc}
use yoinkc.Base.{
  String, Bool, true, false, ◌||◌, ◌≡◌, sym, ap, ◌∙◌, some, List, [], ◌∷◌, ◌++◌, pair_eq, string_eq,
  if◌then◌else◌,
}
use yoinkc.Base.Dict.{lookup}
use yoinkc.Schema.{Redaction, RedactionFinding}
use yoinkc.Redact.Registry.Tokens.{IsConsistent, get_token-Grants}
use yoinkc.Redact.Scan.{Scan, Redactor, pure, ◌>>=◌, report, token_for, each_item}

pub data Step : Scan → Scan → Type 0 where
  reports : (f : RedactionFinding) (s : Scan) → Step s (report f s).1
  asks : (type_label value : String) (s : Scan) → Step s (token_for type_label value s).1

pub data Run (s : Scan) : Scan → Type 0 where
  done : Run s s
  next : {t u : Scan} → Run s t → Step t u → Run s u

Run_trans : {s t u : Scan} → Run s t → Run t u → Run s u
Run_trans r done = r
Run_trans r (next q st) = next (Run_trans r q) st

-- Whatever `m` starts from, it runs by such steps.
pub record Runs {A : Type 0} (m : Redactor A) : Type 0 where
  pub from : (s : Scan) → Run s (m s).1

pub Runs-pure : {A : Type 0} (a : A) → Runs (pure a)
unfolding pure
Runs-pure a = record { from = λ s. done }

pub Runs-report : (f : RedactionFinding) → Runs (report f)
Runs-report f = record { from = λ s. next done (reports f s) }

pub Runs-token_for : (type_label value : String) → Runs (token_for type_label value)
Runs-token_for l v = record { from = λ s. next done (asks l v s) }

pub Runs-bind :
    {A B : Type 0} (m : Redactor A) (f : A → Redactor B)
    → Runs m
    → ((a : A) → Runs (f a))
    → Runs (m >>= f)
unfolding ◌>>=◌
Runs-bind m f rm rf = record { from = λ s. Run_trans (rm.from s) ((rf (m s).0).from (m s).1) }

pub Runs-if :
    {A : Type 0} (b : Bool) (m n : Redactor A) → Runs m → Runs n → Runs (if b then m else n)
Runs-if true m n rm rn = rm
Runs-if false m n rm rn = rn

pub Runs-each_item :
    {A : Type 0} (f : A → Redactor (A × Bool)) (items : List A)
    → ((a : A) → Runs (f a))
    → Runs (each_item f items)
unfolding each_item
Runs-each_item f [] rf = Runs-pure ([], false)
Runs-each_item f (a ∷ items) rf = Runs-bind (f a) _ (rf a) λ x.
    Runs-bind (each_item f items) _ (Runs-each_item f items rf)
      λ y. Runs-pure (x.0 ∷ y.0, x.1 || y.1)

pub ruleset runs_rules =
    (Runs-pure, Runs-report, Runs-token_for, Runs-bind, Runs-if, Runs-each_item)

-- A run only adds findings.
pub Run-adds :
    {s t : Scan} → Run s t → (added : List Redaction) × (t.redactions ≡ s.redactions ++ added)
unfolding report token_for
Run-adds {s = s} done = ([], sym (append-nil s.redactions))
Run-adds {s = s} (next r (reports f _)) =
    let (added, p) = Run-adds r in
    (
      added ++ (Redaction.finding f ∷ []),
      ap (λ l. l ++ (Redaction.finding f ∷ [])) p
          ∙ append_assoc s.redactions added (Redaction.finding f ∷ []),
    )
Run-adds (next r (asks l v _)) = Run-adds r

-- A run keeps the registry consistent, and every secret's token.
pub Run-IsConsistent : {s t : Scan} → Run s t → IsConsistent s.registry → IsConsistent t.registry
unfolding report token_for
Run-IsConsistent done h = h
Run-IsConsistent (next r (reports f _)) h = Run-IsConsistent r h
Run-IsConsistent (next r (asks l v t)) h =
    (get_token-Grants l v t.registry (Run-IsConsistent r h)).consistent

pub Run-keeps :
    {s t : Scan} (k : String × String) (token : String)
    → Run s t
    → IsConsistent s.registry
    → lookup k s.registry.seen ≡ some token
    → lookup k t.registry.seen ≡ some token
unfolding report token_for
Run-keeps k token done h p = p
Run-keeps k token (next r (reports f _)) h p = Run-keeps k token r h p
Run-keeps k token (next r (asks l v t)) h p =
    (get_token-Grants l v t.registry (Run-IsConsistent r h)).kept k token (Run-keeps k token r h p)
