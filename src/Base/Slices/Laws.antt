-- ===== src/Base/Slices/Laws.antt =====
-- Slices of texts: a text is what stands before an index and what stands behind it.
use text.Mathlib.TextLemmas.{nil-append, cons-append}
use yoinkc.Base.{ℕ, zero, suc, ◌+◌, ◌≤◌, String, ◌<>◌, ◌≡◌, refl, ap, ◌∙◌, arith}
use yoinkc.Base.Slices.{text_before, text_after, text_length}

pub text_before-append-text_after : (n : ℕ) (s : String) → text_before n s <> text_after n s ≡ s
unfolding text_before text_after
text_before-append-text_after zero s = nil-append s
text_before-append-text_after (suc n) String.[] = nil-append ""
text_before-append-text_after (suc n) (String.◌∷◌ c s) =
    rw cons-append (ap (String.◌∷◌ c) (text_before-append-text_after n s))

one_more : (m n : ℕ) → suc (m + n) ≡ suc m + n
one_more m n = omega arith

pub text_after-text_after :
    (m n : ℕ) (s : String) → text_after n (text_after m s) ≡ text_after (m + n) s
unfolding text_after
text_after-text_after zero n s = ap (λ k. text_after k s) (omega arith)
text_after-text_after (suc m) n (String.◌∷◌ c s) =
    text_after-text_after m n s ∙ ap (λ k. text_after k (String.◌∷◌ c s)) (one_more m n)
text_after-text_after (suc m) zero String.[] = ap (λ k. text_after k "") (one_more m 0)
text_after-text_after (suc m) (suc n) String.[] = ap (λ k. text_after k "") (one_more m (suc n))

pub text_before-append-text_before :
    (m n : ℕ) (s : String)
    → text_before m s <> text_before n (text_after m s) ≡ text_before (m + n) s
unfolding text_before text_after
text_before-append-text_before zero n s =
    nil-append (text_before n s) ∙ ap (λ k. text_before k s) (omega arith)
text_before-append-text_before (suc m) n (String.◌∷◌ c s) =
    cons-append c _ _
    ∙ ap (String.◌∷◌ c) (text_before-append-text_before m n s)
    ∙ ap (λ k. text_before k (String.◌∷◌ c s)) (one_more m n)
text_before-append-text_before (suc m) zero String.[] =
    nil-append "" ∙ ap (λ k. text_before k "") (one_more m 0)
text_before-append-text_before (suc m) (suc n) String.[] =
    nil-append "" ∙ ap (λ k. text_before k "") (one_more m (suc n))

-- Within the text, a slice of a longer text that starts the same way is the same.
pub text_before-append :
    (m n : ℕ) (s t : String)
    → m ≤ n
    → n ≤ text_length s
    → text_before m (text_before n s <> t) ≡ text_before m s
unfolding text_before text_length
text_before-append zero n s t h k = refl
text_before-append (suc m) zero s t h k = elim h [ ]
text_before-append (suc m) (suc n) String.[] t h k = elim k [ ]
text_before-append (suc m) (suc n) (String.◌∷◌ c s) t h k =
    rw cons-append (ap (String.◌∷◌ c) (text_before-append m n s t (omega arith) (omega arith)))

pub text_after-append :
    (n : ℕ) (s t : String) → n ≤ text_length s → text_after n (text_before n s <> t) ≡ t
unfolding text_before text_after text_length
text_after-append zero s t h = nil-append t
text_after-append (suc n) String.[] t h = elim h [ ]
text_after-append (suc n) (String.◌∷◌ c s) t h =
    rw cons-append (text_after-append n s t (omega arith))
