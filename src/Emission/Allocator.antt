-- ===== src/Emission/Allocator.antt =====
-- twin-protocol/src/emission.rs: the state of `DailyEmissionAllocator` and its operations. 64-bit
-- sums and differences wrap, as in a release build.
mod Records
unfoldable pub use Records.*
use sovereign_stack.Base.{
  ℕ, ◌+◌, ◌-◌, ◌/◌, ◌%◌, ◌^◌, Bool, true, false, Option, none, some, List, [], ◌∷◌, ◌++◌, Text,
  Text_discrete, ℕ_discrete, Dict, lookup, insert, if◌then◌else◌, ◌==◌, map,
}
use sovereign_stack.Runtime.Receipt.Work.{le_bytes}

module _ {F : Type 0} (fl : Floats F) where
  unfoldable pub novelty_weight : ℕ → F
  novelty_weight prior_count =
      if prior_count == 0 then fl.one else fl.div fl.one (fl.sqrt (fl.from_u64 prior_count))

  unfoldable pub current_difficulty : ℕ → F
  current_difficulty epoch_minute =
      let epochs_elapsed = epoch_minute / difficulty_epoch_blocks in
      let adjusted =
        fl.add fl.genesis_difficulty (fl.mul (fl.from_u64 epochs_elapsed) fl.difficulty_step) in
      fl.min adjusted fl.max_difficulty

  -- the loop that filters and scores: the rejected ids and the eligible claims with their weights
  unfoldable pub screen :
      DailyEmissionAllocator → F → List (ProofClaim F) → List Text × List (ProofClaim F × F)
  unfolding is_claimed
  screen s difficulty [] = ([], [])
  screen s difficulty (claim ∷ claims) =
      let rest = screen s difficulty claims in
      if fl.lt claim.f1_score difficulty
      then (claim.proof_id ∷ rest.0, rest.1)
      else if is_claimed s.claimed_utxos (utxo_key claim)
      then (claim.proof_id ∷ rest.0, rest.1)
      else (
        rest.0,
        (
          claim,
          fl.mul claim.f1_score (novelty_weight (prior_count s.env_hash_counts claim.env_hash)),
        )
            ∷ rest.1,
      )

  -- The changes of one iteration of the loop that pays: the UTXO and the novelty counter.
  unfoldable pub settle : ℕ → DailyEmissionAllocator → ProofClaim F → DailyEmissionAllocator
  settle epoch_minute s claim = record s {
    claimed_utxos =
        insert Key_discrete (utxo_key claim)
          (record (new_utxo claim) { claimed = true; claimed_at_minute = some epoch_minute })
          s.claimed_utxos;
    env_hash_counts =
        insert Text_discrete claim.env_hash
          ((prior_count s.env_hash_counts claim.env_hash + 1) % 2 ^ 64) s.env_hash_counts;
  }

  -- A wrapping difference.
  abbrev pub remainder : ℕ → ℕ
  remainder distributed = (micro_ase_per_minute + 2 ^ 64 - distributed) % 2 ^ 64

  abbrev pub proportion : F → F → ℕ
  proportion total_weighted weighted =
      fl.to_u64 (fl.mul (fl.div weighted total_weighted) (fl.from_u64 micro_ase_per_minute))
      % 2 ^ 64

  -- the share of a worker; the last one gets the remainder
  unfoldable pub share_of : F → ℕ → F → List (ProofClaim F × F) → ℕ
  share_of total_weighted distributed weighted [] = remainder distributed
  share_of total_weighted distributed weighted (_ ∷ _) = proportion total_weighted weighted

  -- the loop that pays, as the new state, the workers and the claimed keys
  unfoldable pub pay :
      F
      → ℕ
      → DailyEmissionAllocator
      → ℕ
      → List (ProofClaim F × F)
      → DailyEmissionAllocator × List (WorkerAllocation F) × List SimulationUtxoKey
  pay total_weighted epoch_minute s distributed [] = (s, [], [])
  pay total_weighted epoch_minute s distributed ((claim, weighted) ∷ eligible) =
      let share = share_of total_weighted distributed weighted eligible in
      let (t, workers, keys) =
        pay total_weighted epoch_minute (settle epoch_minute s claim)
          ((distributed + share) % 2 ^ 64) eligible in
      (
        t,
        record {
          worker_did = claim.worker_did;
          proof_id = claim.proof_id;
          micro_ase = share;
          weighted_score = weighted;
        }
            ∷ workers,
        utxo_key claim ∷ keys,
      )

  -- `eligible.iter().map(|(_, w)| w).sum()`
  abbrev pub weight_from : F → List (ProofClaim F × F) → F
  weight_from acc [] = acc
  weight_from acc ((_, w) ∷ eligible) = weight_from (fl.add acc w) eligible

module _ {F : Type 0} (fl : Floats F) (sha256 : List ℕ → Hash) where
  -- The authorisation that goes with an allocation, on the chain as it stands.
  abbrev pub authorize : MinuteAllocation F → Hash → MintAuthorization F
  authorize alloc chain_hash = record {
    epoch_minute = alloc.epoch_minute;
    allocations = alloc.workers;
    inheritance_fallback = alloc.inheritance_fallback;
    inheritance_micro_ase_per_wallet = alloc.inheritance_micro_ase_per_wallet;
    receipt_hash = receipt_hash sha256 alloc chain_hash;
    runtime_signature = none;
  }

  abbrev pub frozen : ℕ → ℕ → List (ProofClaim F) → MinuteAllocation F
  frozen epoch_minute timestamp_utc claims = record {
    epoch_minute = epoch_minute;
    timestamp_utc = timestamp_utc;
    total_micro_ase = 0;
    workers = [];
    inheritance_fallback = false;
    inheritance_micro_ase_per_wallet = 0;
    difficulty_used = current_difficulty fl epoch_minute;
    rejected_proof_ids = map (λ c. c.proof_id) claims;
    claimed_utxo_keys = [];
  }

  abbrev pub inherited : ℕ → ℕ → List Text → MinuteAllocation F
  inherited epoch_minute timestamp_utc rejected_ids = record {
    epoch_minute = epoch_minute;
    timestamp_utc = timestamp_utc;
    total_micro_ase = micro_ase_per_minute;
    workers = [];
    inheritance_fallback = true;
    inheritance_micro_ase_per_wallet = micro_ase_per_minute / inheritance_wallet_count;
    difficulty_used = current_difficulty fl epoch_minute;
    rejected_proof_ids = rejected_ids;
    claimed_utxo_keys = [];
  }

  abbrev pub paid :
      ℕ → ℕ → List Text → List (WorkerAllocation F) → List SimulationUtxoKey → MinuteAllocation F
  paid epoch_minute timestamp_utc rejected_ids workers claimed_keys = record {
    epoch_minute = epoch_minute;
    timestamp_utc = timestamp_utc;
    total_micro_ase = micro_ase_per_minute;
    workers = workers;
    inheritance_fallback = false;
    inheritance_micro_ase_per_wallet = 0;
    difficulty_used = current_difficulty fl epoch_minute;
    rejected_proof_ids = rejected_ids;
    claimed_utxo_keys = claimed_keys;
  }

  -- the rest of `allocate_minute` once the claims are screened
  unfoldable pub distribute :
      DailyEmissionAllocator
      → ℕ
      → ℕ
      → List Text
      → List (ProofClaim F × F)
      → DailyEmissionAllocator × MinuteAllocation F × MintAuthorization F
  distribute s epoch_minute timestamp_utc rejected_ids [] =
      let alloc = inherited epoch_minute timestamp_utc rejected_ids in
      (
        record s { chain_hash = receipt_hash sha256 alloc s.chain_hash },
        alloc,
        authorize alloc s.chain_hash,
      )
  distribute s epoch_minute timestamp_utc rejected_ids (e ∷ eligible) =
      let (t, workers, keys) =
        pay fl (weight_from fl fl.zero (e ∷ eligible)) epoch_minute s 0 (e ∷ eligible) in
      let alloc = paid epoch_minute timestamp_utc rejected_ids workers keys in
      (
        record t { chain_hash = receipt_hash sha256 alloc s.chain_hash },
        alloc,
        authorize alloc s.chain_hash,
      )

  unfoldable pub allocate_minute :
      DailyEmissionAllocator
      → ℕ
      → ℕ
      → List (ProofClaim F)
      → DailyEmissionAllocator × MinuteAllocation F × MintAuthorization F
  allocate_minute s epoch_minute timestamp_utc claims =
      let screened = screen fl s (current_difficulty fl epoch_minute) claims in
      if is_sabbath timestamp_utc
      then (
        s,
        frozen epoch_minute timestamp_utc claims,
        authorize (frozen epoch_minute timestamp_utc claims) s.chain_hash,
      )
      else distribute s epoch_minute timestamp_utc screened.0 screened.1
