-- ===== src/Runtime/Receipt/Work.antt =====
-- sovereign-types/src/work_id.rs: work identifiers, receipt ids, the tithe; and the BLAKE3 helpers
-- of sovereign-types/src/proof.rs, with BLAKE3 itself a parameter.
use sovereign_stack.Base.{
  ℕ, zero, suc, ◌+◌, ◌-◌, ◌*◌, ◌/◌, ◌%◌, ◌^◌, ◌≤◌, ◌<◌, ◌≡◌, Option, none, some, List, [], ◌∷◌,
  ◌++◌, Text, Text_discrete, text, split_once, split_once-append, Lacks, eqb, if◌then◌else◌, arith,
}

abbrev pub WorkId : Type 0
WorkId = Text

unfoldable pub new_work_id : Text → Text → WorkId
new_work_id namespace id = text "wk:" ++ (namespace ++ (b':' ∷ id))

-- `splitn(3, ':')` has three parts exactly when the text holds two colons.
unfoldable pub namespace : WorkId → Option Text
namespace w = elim (split_once b':' w) [
  | none ↦ none
  | some (first, rest) ↦ elim (split_once b':' rest) [
    | none ↦ none
    | some (second, third) ↦ if eqb Text_discrete first (text "wk") then some second else none
  ]
]

abbrev pub hash_prefix : Text
hash_prefix = text "blake3:"

unfoldable pub blake3_of_json : (Text → Text) → Text → Text
blake3_of_json blake3 value = hash_prefix ++ blake3 value

-- `u64::to_le_bytes`
abbrev pub le_bytes : ℕ → ℕ → List ℕ
le_bytes zero n = []
le_bytes (suc k) n = n % 256 ∷ le_bytes k (n / 256)

-- The hasher is fed the parts in turn.
unfoldable pub compute_id :
    (Text → Text) → WorkId → (principal_id agent_id action input_hash output_hash : Text) → ℕ → Text
compute_id blake3 work_id principal_id agent_id action input_hash output_hash timestamp_ms =
    blake3 (
      work_id
      ++ (principal_id
          ++ (agent_id ++ (action ++ (input_hash ++ (output_hash ++ le_bytes 8 timestamp_ms))))))

-- A work id gives back the namespace that it was made with, if that holds no colon.
pub namespace-new_work_id : (ns id : Text) → Lacks b':' ns → namespace (new_work_id ns id) ≡ some ns
unfolding namespace new_work_id Text_discrete
namespace-new_work_id ns id h = rw (
  split_once-append b':' (text "wk") (ns ++ (b':' ∷ id)) (omega arith),
  namespace,
  split_once-append b':' ns id h,
)

abbrev pub tithe_numerator : ℕ
tithe_numerator = 369

abbrev pub tithe_denominator : ℕ
tithe_denominator = 10000

-- `u64`: the product is exact while `amount_mist * 369 < 2 ^ 64`.
unfoldable pub tithe_due : ℕ → ℕ
tithe_due amount_mist = (amount_mist * tithe_numerator) % 2 ^ 64 / tithe_denominator

unfoldable pub net_after_tithe : ℕ → ℕ
unfolding tithe_due
net_after_tithe amount_mist = (amount_mist + 2 ^ 64 - tithe_due amount_mist) % 2 ^ 64

-- While the product fits 64 bits, the tithe and the net amount make up the amount, and the tithe
-- is 3.69 % of it, rounded down.
tithe_conserved :
    (amount : ℕ)
    → amount * tithe_numerator < 2 ^ 64
    → (net_after_tithe amount + tithe_due amount ≡ amount)
      × (tithe_due amount * tithe_denominator ≤ amount * tithe_numerator)
      × (amount * tithe_numerator < (tithe_due amount + 1) * tithe_denominator)
unfolding net_after_tithe
tithe_conserved amount h = omega arith
