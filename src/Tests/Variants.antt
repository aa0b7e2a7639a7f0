-- ===== src/Tests/Variants.antt =====
-- The selection among three variants of one file, of which two are tied.
use yoinkc.Base.{
  ℕ, ◌≤◌, String, ◌≡◌, refl, true, false, some, [], ◌∷◌, map, All, keep_if, string_eq, nat_eq,
}
use yoinkc.Base.Dict.{upsert}
use yoinkc.Base.Sort.{str_leb, sort_by}
use yoinkc.Schema.{SystemdDropIn}
use yoinkc.Fleet.Variants.{
  Runtime, drop_in_variant, count_of, select_group, content_hash, normalize_content,
  auto_select_variants,
}
use yoinkc.Fleet.Variants.Select.{HasWinner}
use yoinkc.Fleet.Variants.Kept
use yoinkc.Fleet.Variants.Kept.{held}

-- A digest that is the text itself.
abbrev plain : Runtime
plain = record { sha256_hex = λ text. text; repr_pairs = λ pairs. "" }

abbrev drop_in : String → ℕ → SystemdDropIn
drop_in content count = record {
  unit = "sshd.service";
  path = "etc/systemd/system/sshd.service.d/10.conf";
  content = content;
  include = true;
  tie = false;
  tie_winner = false;
  fleet = some (record { count = count; total = 5; hosts = [] });
}

-- The tie of the first and the third goes to the lower digest.
winner_of_tie :
    map
      (λ v. v.include)
      (auto_select_variants plain (drop_in "b" 2 ∷ drop_in "c" 1 ∷ drop_in "a" 2 ∷ []))
    ≡ false ∷ false ∷ true ∷ []
unfolding auto_select_variants upsert string_eq sort_by nat_eq keep_if str_leb content_hash
    normalize_content
winner_of_tie = refl

select_group-Selects_example :
    ((n : ℕ)
      → held n
          (select_group plain ((0, drop_in "b" 2) ∷ (1, drop_in "c" 1) ∷ (2, drop_in "a" 2) ∷ []))
        ≡ held n ((0, drop_in "b" 2) ∷ (1, drop_in "c" 1) ∷ (2, drop_in "a" 2) ∷ []))
    × ((top : ℕ) × All
          (λ u. count_of u ≤ top)
          ((0, drop_in "b" 2) ∷ (1, drop_in "c" 1) ∷ (2, drop_in "a" 2) ∷ [])
        × HasWinner top (
            select_group plain ((0, drop_in "b" 2) ∷ (1, drop_in "c" 1) ∷ (2, drop_in "a" 2) ∷ [])))
select_group-Selects_example =
    Kept.select_group-Selects plain (0, drop_in "b" 2)
      ((1, drop_in "c" 1) ∷ (2, drop_in "a" 2) ∷ [])
