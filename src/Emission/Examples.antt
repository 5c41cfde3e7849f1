-- ===== src/Emission/Examples.antt =====
-- Minutes of twin-protocol/src/emission.rs at concrete values, with thousandths for floats.
use sovereign_stack.Base.{
  ℕ, ◌+◌, ◌*◌, ◌/◌, ◌%◌, ◌^◌, ◌≡◌, ◌≢◌, ◌⊎◌, refl, true, false, List, [], ◌∷◌, text, ltb,
  if◌then◌else◌, contains, lookup, ℕ_discrete, Text_discrete,
}
use sovereign_stack.Emission.Allocator.{
  Floats, Hash, ProofClaim, Key_discrete, utxo_key, DailyEmissionAllocator, is_claimed, is_sabbath,
  allocate_minute, micro_ase_per_minute, current_difficulty, screen, pay, distribute, prior_count,
  novelty_weight, share_of,
}
use sovereign_stack.Emission.Shares.{allocate_minute-minted, allocation, minted, eligible}
use sovereign_stack.Emission.Claims.{minute, start, has_claimed, claimed_once}
use sovereign_stack.Emission.Settlement.{IsSettled, allocate_minute-IsSettled}

-- The square root is taken of 1 only.
abbrev thousandths : Floats ℕ
thousandths = record {
  lt = ltb;
  min = λ a b. if ltb a b then a else b;
  add = λ a b. a + b;
  mul = λ a b. a * b / 1000;
  div = λ a b. a * 1000 / b;
  sqrt = λ a. a;
  from_u64 = λ n. n * 1000;
  to_u64 = λ a. a / 1000;
  zero = 0;
  one = 1000;
  genesis_difficulty = 777;
  max_difficulty = 980;
  difficulty_step = 1;
}

abbrev sha256 : List ℕ → Hash
sha256 bytes = 7 ∷ bytes

abbrev claim : ProofClaim ℕ
claim = record {
  proof_id = text "p1";
  worker_did = text "did:w1";
  veil_id = 1;
  epoch_minute = 5;
  trajectory_hash = 1 ∷ 2 ∷ [];
  f1_score = 900;
  proof_value = 500;
  env_hash = 3 ∷ [];
}

abbrev second : ProofClaim ℕ
second = record claim {
  proof_id = text "p2";
  trajectory_hash = 9 ∷ [];
  f1_score = 800;
  env_hash = 4 ∷ [];
}

cons-ne-nil : {A : Type 0} {x : A} {xs : List A} → ◌≢◌ {A = List A} (x ∷ xs) []
cons-ne-nil e = cc

abbrev genesis : DailyEmissionAllocator
genesis = record { env_hash_counts = []; claimed_utxos = []; chain_hash = [] }

abbrev after_one : DailyEmissionAllocator
after_one = (allocate_minute thousandths sha256 genesis 5 0 (claim ∷ second ∷ [])).0

two_shares :
    minted (allocate_minute thousandths sha256 genesis 5 0 (claim ∷ second ∷ [])).1 ≡ 1000000
unfolding allocate_minute is_sabbath screen is_claimed distribute pay share_of current_difficulty
    novelty_weight prior_count lookup
two_shares = refl

allocate_minute-minted_example :
    (is_sabbath 0 ≡ true
      → minted (allocation thousandths sha256 genesis 5 0 (claim ∷ second ∷ [])) ≡ 0)
    × (is_sabbath 0 ≡ false
        → ((eligible thousandths sha256 genesis 5 0 (claim ∷ second ∷ []) ≡ [])
            × (minted (allocation thousandths sha256 genesis 5 0 (claim ∷ second ∷ [])) ≡ 999360))
          ⊎ ((eligible thousandths sha256 genesis 5 0 (claim ∷ second ∷ []) ≢ [])
              × (minted (allocation thousandths sha256 genesis 5 0 (claim ∷ second ∷ [])) % 2 ^ 64
                  ≡ micro_ase_per_minute)))
allocate_minute-minted_example =
    allocate_minute-minted thousandths sha256 genesis 5 0 (claim ∷ second ∷ [])

two_eligible : eligible thousandths sha256 genesis 5 0 (claim ∷ second ∷ []) ≢ []
unfolding screen is_claimed current_difficulty novelty_weight prior_count lookup
two_eligible = cons-ne-nil

claimed_once_example :
    (has_claimed after_one (utxo_key claim) ≡ true)
    × (contains Key_discrete
          (utxo_key claim)
          (allocate_minute thousandths sha256 after_one 6 60 (claim ∷ [])).1.claimed_utxo_keys
        ≡ false)
unfolding allocate_minute is_sabbath screen is_claimed distribute pay current_difficulty
    novelty_weight prior_count contains utxo_key Key_discrete lookup ℕ_discrete Text_discrete
claimed_once_example =
    claimed_once thousandths sha256 {s = genesis} (minute 5 0 (claim ∷ second ∷ [])) start
      (minute 6 60 (claim ∷ [])) (utxo_key claim) refl

allocate_minute-IsSettled_example :
    let (t, alloc, auth) = allocate_minute thousandths sha256 genesis 5 0 (claim ∷ second ∷ []) in
    IsSettled thousandths sha256 genesis t alloc auth 5 0 (claim ∷ second ∷ [])
allocate_minute-IsSettled_example =
    allocate_minute-IsSettled thousandths sha256 genesis 5 0 (claim ∷ second ∷ [])
