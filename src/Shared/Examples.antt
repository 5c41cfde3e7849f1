-- ===== src/Shared/Examples.antt =====
-- Merkle roots at concrete values.
use sovereign_stack.Base.{
  ℕ, ◌≡◌, ◌⊎◌, refl, some, none, List, [], ◌∷◌, Text, text, replicate, length-replicate,
}
use sovereign_stack.Shared.Merkle.{
  Hashing, IsHashing, merkle_root, prefixed, next_power_of_two, combine_leaves, combine_from,
  power_from,
}
use sovereign_stack.Shared.Leaves.{IsDigest, Collision}
use sovereign_stack.Shared.Commitment.{merkle_root_total, merkle_root_binds}

abbrev plain : Hashing
plain = record { sha256 = λ t. replicate 32 0; hex = λ t. t }

plain-IsHashing : IsHashing plain
plain-IsHashing = record {
  digest_length = λ t. length-replicate {A = ℕ} 32 0;
  hex_injective = λ s t e. e;
}

abbrev fields : List (Text × Text)
fields = (text "a", text "1") ∷ (text "b", text "2") ∷ (text "c", text "3") ∷ []

five_leaves : next_power_of_two 5 ≡ 8
unfolding next_power_of_two power_from
five_leaves = refl

no_leaves : combine_leaves plain [] ≡ none
unfolding combine_leaves combine_from
no_leaves = refl

merkle_root_total_example :
    (d : Text) × (merkle_root plain fields ≡ some (prefixed plain (plain.hex d)))
    × IsDigest plain plain-IsHashing d
merkle_root_total_example = merkle_root_total plain plain-IsHashing fields

merkle_root_binds_example : (fields ≡ fields) ⊎ Collision plain plain-IsHashing
merkle_root_binds_example = merkle_root_binds plain plain-IsHashing fields fields refl refl
