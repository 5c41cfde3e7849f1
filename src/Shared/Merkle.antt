-- ===== src/Shared/Merkle.antt =====
-- sovereign-types/src/merkle.rs: Merkle roots over named fields. SHA-256 and the hexadecimal
-- encoding of the crate `hex` are parameters. Field values are given as their JSON text.
use sovereign_stack.Base.{
  ℕ, zero, suc, ◌+◌, ◌/◌, ◌≡◌, min, Bool, Option, none, some, List, [], ◌++◌, map, Text, text,
  Text_discrete, eqb, ltb, ◌==◌, length, take, drop, get_elem?, is_empty, if◌then◌else◌,
}

-- The crates `sha2` and `hex`.
pub record Hashing : Type 0 where
  pub sha256 : Text → Text
  pub hex : Text → Text

-- What they document: a digest has 32 bytes, and an encoding can be decoded.
pub record IsHashing (h : Hashing) : Type 0 where
  pub digest_length : (t : Text) → length (h.sha256 t) ≡ 32
  pub hex_injective : (s t : Text) → h.hex s ≡ h.hex t → s ≡ t

-- `usize::next_power_of_two` from the power `p` on: doubling until `n` is reached
unfoldable pub power_from : ℕ → ℕ → ℕ → ℕ
power_from zero p n = p
power_from (suc f) p n = power_from f (if ltb p n then p + p else p) n

unfoldable pub next_power_of_two : ℕ → ℕ
unfolding power_from
next_power_of_two n = power_from n 1 n

module _ (h : Hashing) where
  abbrev pub prefixed : Text → Text
  prefixed t = text "sha256:" ++ t

  -- The two halves are there, or the recursion has run out of fuel.
  abbrev pub join : Option Text → Option Text → Option Text
  join (some left) (some right) = some (h.sha256 (left ++ right))
  join (some left) none = none
  join none right = none

  -- the recursion on the number of leaves, as fuel
  unfoldable pub combine_from : ℕ → List Text → Option Text
  combine_from zero leaves = none
  combine_from (suc f) leaves =
      let mid = next_power_of_two (length leaves) / 2 in
      let left = combine_from f (take (min mid (length leaves)) leaves) in
      let right = combine_from f (drop mid leaves) in
      if length leaves == 1
      then get_elem? leaves 0
      else join left (if ltb mid (length leaves) then right else left)

  unfoldable pub combine_leaves : List Text → Option Text
  combine_leaves leaves = combine_from (length leaves) leaves

  -- `sha256("key:value")`
  unfoldable pub leaf : Text × Text → Text
  leaf (k, v) = h.sha256 (k ++ (text ":" ++ v))

  -- The fields are given in the order of their keys, as a `BTreeMap` keeps them.
  unfoldable pub merkle_root : List (Text × Text) → Option Text
  merkle_root fields =
      if is_empty fields
      then some (prefixed (h.hex (h.sha256 [])))
      else elim (combine_leaves (map leaf fields)) [
        | none ↦ none
        | some root ↦ some (prefixed (h.hex root))
      ]

  unfoldable pub hash_bytes : Text → Text
  hash_bytes t = prefixed (h.hex (h.sha256 t))

  unfoldable pub verify_hash : Text → Text → Bool
  unfolding hash_bytes
  verify_hash stored t = eqb Text_discrete stored (hash_bytes t)
