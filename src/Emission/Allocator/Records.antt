-- ===== src/Emission/Allocator/Records.antt =====
-- twin-protocol/src/emission.rs: claims, allocations and the state of the allocator.
use sovereign_stack.Base.{
  ℕ, ◌+◌, ◌/◌, ◌%◌, Bool, false, Option, none, some, List, [], ◌∷◌, ◌++◌, Text, Text_discrete,
  ℕ_discrete, Dict, lookup, ◌==◌,
}
use sovereign_stack.Runtime.Receipt.Work.{le_bytes}

-- The operations and constants of `f64` that the code uses.
pub record Floats (F : Type 0) : Type 0 where
  pub lt : F → F → Bool
  pub min : F → F → F
  pub add : F → F → F
  pub mul : F → F → F
  pub div : F → F → F
  pub sqrt : F → F
  pub from_u64 : ℕ → F
  pub to_u64 : F → ℕ
  pub zero : F
  pub one : F
  pub genesis_difficulty : F
  pub max_difficulty : F
  pub difficulty_step : F

abbrev pub micro_ase_per_minute : ℕ
micro_ase_per_minute = 1000000

abbrev pub inheritance_wallet_count : ℕ
inheritance_wallet_count = 1440

abbrev pub difficulty_epoch_blocks : ℕ
difficulty_epoch_blocks = 2016

-- A hash of 32 bytes is the list of its bytes.
abbrev pub Hash : Type 0
Hash = List ℕ

pub record SimulationUtxoKey : Type 0 where
  pub veil_id : ℕ
  pub epoch_minute : ℕ
  pub trajectory_hash : Hash

unfoldable pub Key_discrete : Discrete SimulationUtxoKey
Key_discrete = hlevel (ℕ_discrete, Text_discrete)

pub record ProofClaim (F : Type 0) : Type 0 where
  pub proof_id : Text
  pub worker_did : Text
  pub veil_id : ℕ
  pub epoch_minute : ℕ
  pub trajectory_hash : Hash
  pub f1_score : F
  pub proof_value : F
  pub env_hash : Hash

unfoldable pub utxo_key : {F : Type 0} → ProofClaim F → SimulationUtxoKey
utxo_key claim = record {
  veil_id = claim.veil_id;
  epoch_minute = claim.epoch_minute;
  trajectory_hash = claim.trajectory_hash;
}

pub record SimulationUtxo : Type 0 where
  pub key : SimulationUtxoKey
  pub worker_did : Text
  pub claimed : Bool
  pub claimed_at_minute : Option ℕ

unfoldable pub new_utxo : {F : Type 0} → ProofClaim F → SimulationUtxo
unfolding utxo_key
new_utxo claim = record {
  key = utxo_key claim;
  worker_did = claim.worker_did;
  claimed = false;
  claimed_at_minute = none;
}

pub record WorkerAllocation (F : Type 0) : Type 0 where
  pub worker_did : Text
  pub proof_id : Text
  pub micro_ase : ℕ
  pub weighted_score : F

pub record MinuteAllocation (F : Type 0) : Type 0 where
  pub epoch_minute : ℕ
  pub timestamp_utc : ℕ
  pub total_micro_ase : ℕ
  pub workers : List (WorkerAllocation F)
  pub inheritance_fallback : Bool
  pub inheritance_micro_ase_per_wallet : ℕ
  pub difficulty_used : F
  pub rejected_proof_ids : List Text
  pub claimed_utxo_keys : List SimulationUtxoKey

abbrev pub worker_bytes : {F : Type 0} → List (WorkerAllocation F) → List ℕ
worker_bytes [] = []
worker_bytes (w ∷ ws) = w.worker_did ++ (le_bytes 8 w.micro_ase ++ worker_bytes ws)

unfoldable pub receipt_hash : {F : Type 0} → (List ℕ → Hash) → MinuteAllocation F → Hash → Hash
receipt_hash sha256 alloc prev_hash = sha256 (
    prev_hash
    ++ (le_bytes 8 alloc.epoch_minute
        ++ (le_bytes 8 alloc.total_micro_ase ++ worker_bytes alloc.workers)))

pub record MintAuthorization (F : Type 0) : Type 0 where
  pub epoch_minute : ℕ
  pub allocations : List (WorkerAllocation F)
  pub inheritance_fallback : Bool
  pub inheritance_micro_ase_per_wallet : ℕ
  pub receipt_hash : Hash
  pub runtime_signature : Option Text

pub record DailyEmissionAllocator : Type 0 where
  pub env_hash_counts : Dict Hash ℕ
  pub claimed_utxos : Dict SimulationUtxoKey SimulationUtxo
  pub chain_hash : Hash

abbrev pub genesis_chain_hash : Hash
genesis_chain_hash =
    79 ∷ 83 ∷ 79 ∷ 86 ∷ 77 ∷ 95 ∷ 71 ∷ 69 ∷ 78 ∷ 69 ∷ 83 ∷ 73 ∷ 83 ∷ 95 ∷ 50 ∷ 48 ∷ 50 ∷ 54 ∷ 48
    ∷ 57 ∷ 49 ∷ 48 ∷ 95 ∷ 65 ∷ 83 ∷ 72 ∷ 69 ∷ 95 ∷ 1 ∷ 68 ∷ 5 ∷ 160 ∷ []

unfoldable pub new_allocator : DailyEmissionAllocator
new_allocator = record { env_hash_counts = []; claimed_utxos = []; chain_hash = genesis_chain_hash }

unfoldable pub is_sabbath : ℕ → Bool
is_sabbath timestamp_utc = let day_of_week = (timestamp_utc / 86400 + 4) % 7 in day_of_week == 6

-- `map.get(&k).map(|u| u.claimed).unwrap_or(false)`
unfoldable pub is_claimed : Dict SimulationUtxoKey SimulationUtxo → SimulationUtxoKey → Bool
is_claimed m key = elim (lookup Key_discrete key m) [ none ↦ false | some u ↦ u.claimed ]

-- `*map.get(&k).unwrap_or(&0)`
unfoldable pub prior_count : Dict Hash ℕ → Hash → ℕ
prior_count m h = elim (lookup Text_discrete h m) [ none ↦ 0 | some n ↦ n ]
