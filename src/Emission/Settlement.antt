-- ===== src/Emission/Settlement.antt =====
-- The records that an allocation of twin-protocol/src/emission.rs leaves: its authorisation, the
-- chain of receipts, the rejected claims and the Sabbath.
use sovereign_stack.Base.{
  ℕ, ◌/◌, ◌%◌, ◌≡◌, ◌↔◌, refl, inl, inr, true, false, some, List, [], ◌∷◌, Bool-cases, Option-cases,
  Text, map, lookup, arith,
}
use sovereign_stack.Emission.Allocator.{
  Floats, Hash, Key_discrete, SimulationUtxoKey, SimulationUtxo, ProofClaim, WorkerAllocation,
  MinuteAllocation, MintAuthorization, DailyEmissionAllocator, is_claimed, utxo_key, is_sabbath,
  current_difficulty, screen, settle, pay, weight_from, distribute, allocate_minute, authorize,
  frozen,
}

-- Day 0 of the epoch is a Thursday: the Sabbath is the third day of each week that begins on it,
-- the Saturday.
is_sabbath_iff :
    (timestamp_utc : ℕ) → (is_sabbath timestamp_utc ≡ true) ↔ (timestamp_utc / 86400 % 7 ≡ 2)
unfolding is_sabbath
is_sabbath_iff timestamp_utc = (λ e. ground arith, λ e. ground arith)

-- A key that is stored as claimed.
pub record IsClaimed (s : DailyEmissionAllocator) (key : SimulationUtxoKey) : Type 0 where
  pub utxo : SimulationUtxo
  pub stored : lookup Key_discrete key s.claimed_utxos ≡ some utxo
  pub claimed : utxo.claimed ≡ true

is_claimed-IsClaimed :
    (s : DailyEmissionAllocator) (key : SimulationUtxoKey)
    → is_claimed s.claimed_utxos key ≡ true
    → IsClaimed s key
unfolding is_claimed
is_claimed-IsClaimed s key h = elim (Option-cases (lookup Key_discrete key s.claimed_utxos)) [
  | inl e ↦ absurd (ground (arith, e, h))
  | inr (u, e) ↦ record { utxo = u; stored = e; claimed = ground (arith, e, h) }
]

IsClaimed-is_claimed :
    (s : DailyEmissionAllocator) (key : SimulationUtxoKey)
    → IsClaimed s key
    → is_claimed s.claimed_utxos key ≡ true
unfolding is_claimed
IsClaimed-is_claimed s key v = rw (is_claimed, v.stored) v.claimed

module _ {F : Type 0} (fl : Floats F) (s : DailyEmissionAllocator)
    (epoch_minute timestamp_utc : ℕ) where
  -- A claim of a day other than the Sabbath, whose score is not below the difficulty and whose
  -- key was not claimed before the minute.
  pub record IsPayable (c : ProofClaim F) : Type 0 where
    pub workday : is_sabbath timestamp_utc ≡ false
    pub hard_enough : fl.lt c.f1_score (current_difficulty fl epoch_minute) ≡ false
    pub fresh : ¬ IsClaimed s (utxo_key c)

  -- Each claim in turn is rejected under its id if it is not payable, and otherwise paid for: one
  -- payment to its worker under its id, and its key as claimed.
  pub data Treats
      : List (ProofClaim F)
        → (rejected : List Text) → List (WorkerAllocation F)
        → List SimulationUtxoKey
        → Type 0 where
    none_left : Treats [] [] [] []
    rejects :
        {c : ProofClaim F} {cs : List (ProofClaim F)} {ids : List Text}
        {ws : List (WorkerAllocation F)} {keys : List SimulationUtxoKey}
        → ¬ IsPayable c
        → Treats cs ids ws keys
        → Treats (c ∷ cs) (c.proof_id ∷ ids) ws keys
    pays :
        {c : ProofClaim F} {cs : List (ProofClaim F)} {ids : List Text} {w : WorkerAllocation F}
        {ws : List (WorkerAllocation F)} {keys : List SimulationUtxoKey}
        → IsPayable c
        → w.proof_id ≡ c.proof_id
        → w.worker_did ≡ c.worker_did
        → Treats cs ids ws keys
        → Treats (c ∷ cs) ids (w ∷ ws) (utxo_key c ∷ keys)

  abbrev screened : List (ProofClaim F) → List Text × List (ProofClaim F × F)
  screened claims = screen fl s (current_difficulty fl epoch_minute) claims

  module _ (tw : F) (day : is_sabbath timestamp_utc ≡ false) where
    -- the state and the sum at which the payments of the claims begin do not matter
    paid-Treats :
        (claims : List (ProofClaim F)) (t : DailyEmissionAllocator) (d : ℕ)
        → let (t', ws, keys) = pay fl tw epoch_minute t d (screened claims).1 in
          Treats claims (screened claims).0 ws keys
    unfolding screen pay
    paid-Treats [] t d = none_left
    paid-Treats (c ∷ claims) t d =
        elim (Bool-cases (fl.lt c.f1_score (current_difficulty fl epoch_minute))) [
          | inl low ↦
              rw (screen, low) (rejects (λ v. cc (low, v.hard_enough)) (paid-Treats claims t d))
          | inr high ↦ elim (Bool-cases (is_claimed s.claimed_utxos (utxo_key c))) [
            | inl old ↦
                rw (screen, high, old)
                  (rejects (λ v. v.fresh (is_claimed-IsClaimed s (utxo_key c) old))
                    (paid-Treats claims t d))
            | inr new ↦
                rw (screen, high, new, pay)
                  (pays
                    (record {
                      workday = day;
                      hard_enough = high;
                      fresh = λ v. cc (new, IsClaimed-is_claimed s (utxo_key c) v);
                    })
                    refl refl (paid-Treats claims (settle fl epoch_minute t c) _))
          ]
        ]

  frozen-Treats :
      (claims : List (ProofClaim F))
      → is_sabbath timestamp_utc ≡ true
      → Treats claims (map (λ c. c.proof_id) claims) [] []
  frozen-Treats [] day = none_left
  frozen-Treats (c ∷ claims) day = rejects (λ v. cc (day, v.workday)) (frozen-Treats claims day)

module _ {F : Type 0} (fl : Floats F) (sha256 : List ℕ → Hash) where
  -- What every allocation keeps.
  pub record IsSettled (s t : DailyEmissionAllocator) (alloc : MinuteAllocation F)
      (auth : MintAuthorization F) (epoch_minute timestamp_utc : ℕ) (claims : List (ProofClaim F))
      : Type 0 where
    pub mirrored : auth ≡ authorize fl sha256 alloc s.chain_hash
    pub treated :
        Treats fl s epoch_minute timestamp_utc claims alloc.rejected_proof_ids alloc.workers
          alloc.claimed_utxo_keys
    pub chained : is_sabbath timestamp_utc ≡ false → t.chain_hash ≡ auth.receipt_hash
    pub at_rest : is_sabbath timestamp_utc ≡ true → t ≡ s

  distribute-IsSettled :
      (s : DailyEmissionAllocator) (m ts : ℕ) (ids : List Text) (es : List (ProofClaim F × F))
      (claims : List (ProofClaim F))
      → is_sabbath ts ≡ false
      → ((tw : F) → let (t', ws, keys) = pay fl tw m s 0 es in Treats fl s m ts claims ids ws keys)
      → let (t, alloc, auth) = distribute fl sha256 s m ts ids es in
        IsSettled s t alloc auth m ts claims
  unfolding distribute pay
  distribute-IsSettled s m ts ids [] claims day treats = record {
    mirrored = refl;
    treated = treats fl.zero;
    chained = λ e. refl;
    at_rest = λ e. cc;
  }
  distribute-IsSettled s m ts ids (e ∷ es) claims day treats = record {
    mirrored = refl;
    treated = treats (weight_from fl fl.zero (e ∷ es));
    chained = λ e. refl;
    at_rest = λ e. cc;
  }

  frozen-IsSettled :
      (s : DailyEmissionAllocator) (m ts : ℕ) (claims : List (ProofClaim F))
      → is_sabbath ts ≡ true
      → IsSettled s s
          (frozen fl sha256 m ts claims)
          (authorize fl sha256 (frozen fl sha256 m ts claims) s.chain_hash)
          m
          ts
          claims
  frozen-IsSettled s m ts claims day = record {
    mirrored = refl;
    treated = frozen-Treats fl s m ts claims day;
    chained = λ e. cc;
    at_rest = λ e. refl;
  }

  -- The authorisation repeats the allocation with the hash that chains it to the tip. Each claim in
  -- turn is rejected under its id on a Sabbath, below the difficulty of the minute and with a key
  -- that was claimed before the minute, and otherwise paid for once, to its worker under its id,
  -- with its key as claimed; there are no other rejections, payments and keys. On a Sabbath the
  -- allocator stays as it was, and on any other day the new tip of the chain is the hash in the
  -- authorisation.
  pub allocate_minute-IsSettled :
      (s : DailyEmissionAllocator) (epoch_minute timestamp_utc : ℕ) (claims : List (ProofClaim F))
      → let (t, alloc, auth) = allocate_minute fl sha256 s epoch_minute timestamp_utc claims in
        IsSettled s t alloc auth epoch_minute timestamp_utc claims
  unfolding allocate_minute
  allocate_minute-IsSettled s m ts claims = elim (Bool-cases (is_sabbath ts)) [
    | inl day ↦ rw day (frozen-IsSettled s m ts claims day)
    | inr day ↦
        rw day (
          distribute-IsSettled s m ts _ _ claims day
            (λ tw. paid-Treats fl s m ts tw day claims s 0))
  ]

  -- A simulation that is submitted twice in one minute is paid for twice: on a day that is no
  -- Sabbath, a claim that passes the screen and stands twice in the list has its key claimed twice.
  claimed_twice :
      (s : DailyEmissionAllocator) (epoch_minute timestamp_utc : ℕ) (claim : ProofClaim F)
      → is_sabbath timestamp_utc ≡ false
      → fl.lt claim.f1_score (current_difficulty fl epoch_minute) ≡ false
      → is_claimed s.claimed_utxos (utxo_key claim) ≡ false
      → (allocate_minute fl sha256 s epoch_minute timestamp_utc
          (claim ∷ claim ∷ [])).1.claimed_utxo_keys
        ≡ utxo_key claim ∷ utxo_key claim ∷ []
  unfolding allocate_minute screen distribute pay
  claimed_twice s m ts claim day passes fresh = rw (day, passes, fresh) refl
