-- ===== src/Schema/Documents.antt =====
-- The documents that Python keeps in plain dicts: `meta`, `users`, `groups`, `warnings`, …
-- Their numbers are naturals here.
use yoinkc.Base.{
  ℕ, String, Bool, Option, none, some, List, [], ◌∷◌, ◌≡◌, Eq, ◌==◌, string_eq, nat_eq, Result, ok,
  raise, type_error, if◌then◌else◌, arith,
}

mutual
  pub data Json : Type 0 where
    null : Json
    bool : Bool → Json
    num : ℕ → Json
    str : String → Json
    arr : Items → Json
    obj : Fields → Json

  pub data Items : Type 0 where
    nil : Items
    cons : Json → Items → Items

  -- A dict with text keys, in the order of insertion.
  pub data Fields : Type 0 where
    end : Fields
    field : String → Json → Fields → Fields

-- d.get(k)
unfoldable pub get : String → Fields → Option Json
get k end = none
get k (field j v d) = if k == j then some v else get k d

-- d[k] = v
unfoldable pub put : String → Json → Fields → Fields
put k v end = field k v end
put k v (field j w d) = if k == j then field j v d else field j w (put k v d)

-- A list of texts as a value.
unfoldable pub texts : List String → Items
texts [] = nil
texts (s ∷ ss) = cons (str s) (texts ss)

-- What a value is as a member of a set or a key of a dict: `True` and `False` are 1 and 0 there.
pub data HashKey : Type 0 where
  none_key : HashKey
  num_key : ℕ → HashKey
  str_key : String → HashKey

HashKey-discrete : Discrete HashKey
HashKey-discrete = hlevel (string_eq.dec, nat_eq.dec)

instance unfoldable pub HashKey_eq : Eq HashKey
unfolding HashKey-discrete
HashKey_eq = record { dec = HashKey-discrete }

unfoldable pub hash_key : Json → Result HashKey
hash_key null = ok none_key
hash_key (bool b) = ok (num_key (if b then 1 else 0))
hash_key (num n) = ok (num_key n)
hash_key (str s) = ok (str_key s)
hash_key (arr xs) = raise type_error
hash_key (obj d) = raise type_error

pub get-put :
    (j k : String) (v : Json) (d : Fields)
    → get j (put k v d) ≡ (if j == k then some v else get j d)
unfolding get put
get-put j k v end = ground arith
get-put j k v (field i w d) = ground (arith, get-put j k v d)
