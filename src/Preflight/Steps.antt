-- ===== src/Preflight/Steps.antt =====
-- A call that changes the world, and returns or raises: the statements of rpm_preflight.py, and `try … finally`.
use yoinkc.Base.{Result, ok, raise}

abbrev pub Step : Type 0 → Type 0 → Type 0
Step World A = World → Result A × World

abbrev pub pure : {World A : Type 0} → A → Step World A
pure a w = (ok a, w)

-- A call that does not raise.
abbrev pub no_raise : {World A : Type 0} → (World → A × World) → Step World A
no_raise call w = let (a, w') = call w in (ok a, w')

-- What follows a call is skipped if the call raises; what the call has done stays.
abbrev pub continue :
    {World A B : Type 0} → (A → Step World B) → Result A × World → Result B × World
continue f (ok a, w) = f a w
continue f (raise e, w) = (raise e, w)

infixl 10 ◌>>=◌ ◌>>◌
unfoldable pub ◌>>=◌ : {World A B : Type 0} → Step World A → (A → Step World B) → Step World B
◌>>=◌ m f w = continue f (m w)

abbrev pub ◌>>◌ : {World B : Type 0} → Step World (Unit {0}) → Step World B → Step World B
m >> k = m >>= λ _. k

-- An exception of the cleanup replaces the outcome of the body.
abbrev pub outcome : {A : Type 0} → Result (Unit {0}) → Result A → Result A
outcome (ok done) body = body
outcome (raise e) body = raise e

-- try: body finally: cleanup
unfoldable pub finally : {World A : Type 0} → Step World A → Step World (Unit {0}) → Step World A
finally body cleanup w =
    let ended = body w in let cleaned = cleanup ended.1 in (outcome cleaned.0 ended.0, cleaned.1)
