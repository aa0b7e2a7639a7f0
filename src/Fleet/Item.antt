-- ===== src/Fleet/Item.antt =====
-- What the merge engine uses of an item of a section: its `fleet` and `include` attributes.
-- Every class that the engine merges has both.
pub mod Instances
use yoinkc.Base.{ℕ, Bool, Option, some, ◌≡◌, refl}
use yoinkc.Schema.{FleetPrevalence}

pub record Item (A : Type 0) : Type 0 where
  pub fleet : A → Option FleetPrevalence
  pub set_fleet : Option FleetPrevalence → A → A
  pub include : A → Bool
  pub set_include : Bool → A → A
  pub fleet-set_fleet : (f : Option FleetPrevalence) (a : A) → fleet (set_fleet f a) ≡ f
  pub include-set_include : (b : Bool) (a : A) → include (set_include b a) ≡ b
  pub fleet-set_include : (b : Bool) (a : A) → fleet (set_include b a) ≡ fleet a
  pub include-set_fleet : (f : Option FleetPrevalence) (a : A) → include (set_fleet f a) ≡ include a
