-- ===== src/Emission/Shares.antt =====
-- How much an allocation of twin-protocol/src/emission.rs mints.
use sovereign_stack.Base.{
  ℕ, ◌+◌, ◌*◌, ◌%◌, ◌^◌, ◌≡◌, ◌≢◌, ◌≤◌, ◌<◌, ◌⊎◌, refl, inl, inr, true, false, List, [], ◌∷◌, Text,
  arith,
}
use sovereign_stack.Emission.Allocator.{
  Floats, Hash, ProofClaim, WorkerAllocation, MinuteAllocation, DailyEmissionAllocator,
  micro_ase_per_minute, inheritance_wallet_count, is_sabbath, current_difficulty, screen, settle,
  proportion, share_of, pay, weight_from, distribute, allocate_minute,
}

abbrev pub total_shares : {F : Type 0} → List (WorkerAllocation F) → ℕ
total_shares [] = 0
total_shares (w ∷ ws) = w.micro_ase + total_shares ws

-- Everything that an allocation gives out.
abbrev pub minted : {F : Type 0} → MinuteAllocation F → ℕ
minted alloc =
    total_shares alloc.workers + inheritance_wallet_count * alloc.inheritance_micro_ase_per_wallet

module _ {F : Type 0} (fl : Floats F) where
  -- The shares of all workers but the last.
  abbrev pub front : F → List (ProofClaim F × F) → ℕ
  front total_weighted [] = 0
  front total_weighted (_ ∷ []) = 0
  front total_weighted ((_, w) ∷ e ∷ eligible) =
      proportion fl total_weighted w + front total_weighted (e ∷ eligible)

  pay_total :
      (tw : F) (m : ℕ) (s : DailyEmissionAllocator) (d : ℕ) (e : ProofClaim F × F)
      (eligible : List (ProofClaim F × F))
      → d < 2 ^ 64
      → (d + total_shares (pay fl tw m s d (e ∷ eligible)).1) % 2 ^ 64 ≡ micro_ase_per_minute
  unfolding pay share_of
  pay_total tw m s d (c, w) [] h = omega arith
  pay_total tw m s d (c, w) (e ∷ eligible) h =
      let p = proportion fl tw w in
      let rest = pay_total tw m (settle fl m s c) ((d + p) % 2 ^ 64) e eligible (omega arith) in
      omega (arith, rest)

  pay_exact :
      (tw : F) (m : ℕ) (s : DailyEmissionAllocator) (d : ℕ) (e : ProofClaim F × F)
      (eligible : List (ProofClaim F × F))
      → d + front tw (e ∷ eligible) ≤ micro_ase_per_minute
      → d + total_shares (pay fl tw m s d (e ∷ eligible)).1 ≡ micro_ase_per_minute
  unfolding pay share_of
  pay_exact tw m s d (c, w) [] h = omega arith
  pay_exact tw m s d (c, w) (e ∷ eligible) h =
      let p = proportion fl tw w in
      let rest = pay_exact tw m (settle fl m s c) ((d + p) % 2 ^ 64) e eligible (omega arith) in
      omega (arith, rest)

module _ {F : Type 0} (fl : Floats F) (sha256 : List ℕ → Hash) (s : DailyEmissionAllocator)
    (epoch_minute timestamp_utc : ℕ) (claims : List (ProofClaim F)) where
  -- What passes the screen.
  abbrev pub eligible : List (ProofClaim F × F)
  eligible = (screen fl s (current_difficulty fl epoch_minute) claims).1

  abbrev pub total_weighted : F
  total_weighted = weight_from fl fl.zero eligible

  abbrev pub allocation : MinuteAllocation F
  allocation = (allocate_minute fl sha256 s epoch_minute timestamp_utc claims).1

  distribute-minted :
      (ids : List Text) (es : List (ProofClaim F × F))
      → ((es ≡ []) × (minted (distribute fl sha256 s epoch_minute timestamp_utc ids es).1 ≡ 999360))
        ⊎ ((es ≢ [])
            × (minted (distribute fl sha256 s epoch_minute timestamp_utc ids es).1 % 2 ^ 64
                ≡ micro_ase_per_minute))
  unfolding distribute
  distribute-minted ids [] = inl (refl, refl)
  distribute-minted ids (e ∷ es) = inr (
    (λ p. cc),
    let h = pay_total fl (weight_from fl fl.zero (e ∷ es)) epoch_minute s 0 e es (omega arith) in
        omega (arith, h),
  )

  -- On a Sabbath nothing is minted. On any other day a minute without an eligible claim mints
  -- 694 micro-ASE for each of the 1,440 wallets, 999,360 in all; one with an eligible claim mints
  -- 1,000,000 modulo 2 ^ 64, whatever the weights are.
  pub allocate_minute-minted :
      (is_sabbath timestamp_utc ≡ true → minted allocation ≡ 0)
      × (is_sabbath timestamp_utc ≡ false
          → ((eligible ≡ []) × (minted allocation ≡ 999360))
            ⊎ ((eligible ≢ []) × (minted allocation % 2 ^ 64 ≡ micro_ase_per_minute)))
  unfolding allocate_minute
  allocate_minute-minted = (
    λ day. rw (allocation, allocate_minute, day) refl,
    λ day. rw (allocation, allocate_minute, day) (distribute-minted _ eligible),
  )

  distribute_exact :
      (ids : List Text) (es : List (ProofClaim F × F))
      → es ≢ []
      → front fl (weight_from fl fl.zero es) es ≤ micro_ase_per_minute
      → minted (distribute fl sha256 s epoch_minute timestamp_utc ids es).1 ≡ micro_ase_per_minute
  unfolding distribute
  distribute_exact ids [] some_claim fits = absurd (some_claim refl)
  distribute_exact ids (e ∷ es) some_claim fits =
      let h =
        pay_exact fl (weight_from fl fl.zero (e ∷ es)) epoch_minute s 0 e es
          (omega (arith, fits)) in
      omega (arith, h)

  -- If the truncated shares of all eligible claims but the last fit the minute's 1,000,000, exactly
  -- 1,000,000 is minted: the last worker takes up what truncation lost.
  minted_exact :
      is_sabbath timestamp_utc ≡ false
      → eligible ≢ []
      → front fl total_weighted eligible ≤ micro_ase_per_minute
      → minted allocation ≡ micro_ase_per_minute
  unfolding allocate_minute
  minted_exact day some_claim fits =
      rw (allocation, allocate_minute, day) (distribute_exact _ eligible some_claim fits)
