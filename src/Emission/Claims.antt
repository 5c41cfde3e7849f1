-- ===== src/Emission/Claims.antt =====
-- Simulation UTXOs of twin-protocol/src/emission.rs are claimed once over any number of minutes.
use sovereign_stack.Base.{
  or_swap, ℕ, ◌≡◌, ◌≢◌, refl, subst, ◌∙◌, ap, inl, inr, ite, ◌⊎◌, Bool, true, false, ◌||◌, List, [],
  ◌∷◌, Bool-cases, Text, Option, none, some, if◌then◌else◌, arith, contains, lookup, lookup-insert,
}
use sovereign_stack.Emission.Allocator.{
  Floats, Hash, ProofClaim, SimulationUtxoKey, SimulationUtxo, Key_discrete, utxo_key,
  DailyEmissionAllocator, is_claimed, is_sabbath, current_difficulty, screen, settle, pay,
  distribute, allocate_minute,
}

-- Whether an allocator has paid for a key.
abbrev pub has_claimed : DailyEmissionAllocator → SimulationUtxoKey → Bool
has_claimed s k = is_claimed s.claimed_utxos k

module _ {F : Type 0} (fl : Floats F) where
  found :
      {P : Type 0} (d : Dec P) (u : SimulationUtxo) (o : Option SimulationUtxo)
      → u.claimed ≡ true
      → elim (ite d (some u) o) [ none ↦ false | some u ↦ u.claimed ]
        ≡ ite d true (elim o [ none ↦ false | some u ↦ u.claimed ])
  found (yes p) u o h = h
  found (no p) u o h = refl

  has_claimed-settle :
      (m : ℕ) (s : DailyEmissionAllocator) (c : ProofClaim F) (k : SimulationUtxoKey)
      → has_claimed (settle fl m s c) k ≡ ite (Key_discrete (utxo_key c) k) true (has_claimed s k)
  unfolding settle is_claimed
  has_claimed-settle m s c k =
      ap (λ o. elim o [ none ↦ false | some u ↦ u.claimed ])
        (lookup-insert Key_discrete (utxo_key c) k _ s.claimed_utxos)
      ∙ found (Key_discrete (utxo_key c) k) _ (lookup Key_discrete k s.claimed_utxos) refl

  abbrev keys_of : List (ProofClaim F × F) → List SimulationUtxoKey
  keys_of [] = []
  keys_of (e ∷ es) = utxo_key e.0 ∷ keys_of es

  abbrev sieve :
      Bool
      → Bool
      → Text
      → List Text × List (ProofClaim F × F)
      → ProofClaim F × F
      → List Text × List (ProofClaim F × F)
  sieve low old id rest e =
      if low
      then (id ∷ rest.0, rest.1)
      else if old
      then (id ∷ rest.0, rest.1)
      else (rest.0, e ∷ rest.1)

  screened :
      (low old : Bool) (id : Text) (rest : List Text × List (ProofClaim F × F))
      (e : ProofClaim F × F) (k : SimulationUtxoKey)
      → contains Key_discrete k (keys_of (sieve low old id rest e).1) ≡ true
      → (contains Key_discrete k (keys_of rest.1) ≡ true) ⊎ ((old ≡ false) × (utxo_key e.0 ≡ k))
  unfolding contains
  screened true old id rest e k h = inl h
  screened false true id rest e k h = inl h
  screened false false id rest e k h = elim (Key_discrete (utxo_key e.0) k) [
    | yes same ↦ inr (refl, same)
    | no other ↦ inl (go (Key_discrete (utxo_key e.0) k) other h)
  ]
    where
      go :
          (d : Dec (utxo_key e.0 ≡ k))
          → utxo_key e.0 ≢ k
          → ite d true (contains Key_discrete k (keys_of rest.1)) ≡ true
          → contains Key_discrete k (keys_of rest.1) ≡ true
      go (yes same) other h = absurd (other same)
      go (no p) other h = h

  pay_keys :
      (tw : F) (m : ℕ) (s : DailyEmissionAllocator) (d : ℕ) (es : List (ProofClaim F × F))
      → (pay fl tw m s d es).2 ≡ keys_of es
  unfolding pay
  pay_keys tw m s d [] = refl
  pay_keys tw m s d ((c, w) ∷ es) =
      ap (λ ks. utxo_key c ∷ ks) (pay_keys tw m (settle fl m s c) _ es)

  pay_claimed :
      (tw : F) (m : ℕ) (s : DailyEmissionAllocator) (d : ℕ) (es : List (ProofClaim F × F))
      (k : SimulationUtxoKey)
      → has_claimed (pay fl tw m s d es).0 k
        ≡ (contains Key_discrete k (keys_of es) || has_claimed s k)
  unfolding pay contains
  pay_claimed tw m s d [] k = refl
  pay_claimed tw m s d ((c, w) ∷ es) k =
      pay_claimed tw m (settle fl m s c) _ es k
      ∙ ap (λ b. contains Key_discrete k (keys_of es) || b) (has_claimed-settle m s c k)
      ∙ or_swap (Key_discrete (utxo_key c) k) _ _

  screen_fresh :
      (s : DailyEmissionAllocator) (difficulty : F) (claims : List (ProofClaim F))
      (k : SimulationUtxoKey)
      → contains Key_discrete k (keys_of (screen fl s difficulty claims).1) ≡ true
      → has_claimed s k ≡ false
  unfolding screen contains
  screen_fresh s difficulty [] k h = cc
  screen_fresh s difficulty (c ∷ claims) k h =
      elim (screened (fl.lt c.f1_score difficulty) (has_claimed s (utxo_key c)) c.proof_id
        (screen fl s difficulty claims) _ k h) [
          | inl later ↦ screen_fresh s difficulty claims k later
          | inr (fresh, same) ↦ subst (λ k. has_claimed s k ≡ false) same fresh
        ]

module _ {F : Type 0} (fl : Floats F) (sha256 : List ℕ → Hash) where
  -- One minute from the allocator `s` to the allocator `t` with the keys that are paid for.
  pub data Minute (s : DailyEmissionAllocator)
      : List SimulationUtxoKey → DailyEmissionAllocator → Type 0 where
    minute :
        (epoch_minute timestamp_utc : ℕ) (claims : List (ProofClaim F))
        → Minute s
            (allocate_minute fl sha256 s epoch_minute timestamp_utc claims).1.claimed_utxo_keys
            (allocate_minute fl sha256 s epoch_minute timestamp_utc claims).0

  pub data Minutes (s : DailyEmissionAllocator) : DailyEmissionAllocator → Type 0 where
    start : Minutes s s
    later :
        {t u : DailyEmissionAllocator} {keys : List SimulationUtxoKey}
        → Minutes s t
        → Minute t keys u
        → Minutes s u

  abbrev Books : DailyEmissionAllocator → List SimulationUtxoKey → DailyEmissionAllocator → Type 0
  Books s keys t =
      (k : SimulationUtxoKey)
      → (has_claimed t k ≡ (contains Key_discrete k keys || has_claimed s k))
        × (contains Key_discrete k keys ≡ true → has_claimed s k ≡ false)

  distribute_keys :
      (s : DailyEmissionAllocator) (m ts : ℕ) (ids : List Text) (es : List (ProofClaim F × F))
      → (distribute fl sha256 s m ts ids es).1.claimed_utxo_keys ≡ keys_of fl es
  unfolding distribute
  distribute_keys s m ts ids [] = refl
  distribute_keys s m ts ids (e ∷ es) = pay_keys fl _ m s 0 (e ∷ es)

  distribute_claimed :
      (s : DailyEmissionAllocator) (m ts : ℕ) (ids : List Text) (es : List (ProofClaim F × F))
      (k : SimulationUtxoKey)
      → has_claimed (distribute fl sha256 s m ts ids es).0 k
        ≡ (contains Key_discrete k (keys_of fl es) || has_claimed s k)
  unfolding distribute contains
  distribute_claimed s m ts ids [] k = refl
  distribute_claimed s m ts ids (e ∷ es) k = pay_claimed fl _ m s 0 (e ∷ es) k

  -- What a minute does to the record of claimed keys.
  Minute-Books :
      {s t : DailyEmissionAllocator} {keys : List SimulationUtxoKey}
      → Minute s keys t
      → Books s keys t
  unfolding allocate_minute contains
  Minute-Books {s} (minute m ts claims) k = elim (Bool-cases (is_sabbath ts)) [
    | inl day ↦ rw day (refl, λ h. cc)
    | inr day ↦
        let passed = (screen fl s (current_difficulty fl m) claims).1 in
        let keys = distribute_keys s m ts (screen fl s (current_difficulty fl m) claims).0 passed in
        rw (day, keys)
          (
            distribute_claimed s m ts _ passed k,
            screen_fresh fl s (current_difficulty fl m) claims k,
          )
  ]

  Minutes-keep :
      {s t : DailyEmissionAllocator} (k : SimulationUtxoKey)
      → Minutes s t
      → has_claimed s k ≡ true
      → has_claimed t k ≡ true
  Minutes-keep k start h = h
  Minutes-keep k (later r st) h = ground (arith, (Minute-Books st k).0, Minutes-keep k r h)

  -- A simulation UTXO is paid for in one minute only: a key that one minute pays for is recorded as
  -- claimed, and no later minute pays for it again, whatever happened in between.
  pub claimed_once :
      {s t u v : DailyEmissionAllocator} {paid repaid : List SimulationUtxoKey}
      → Minute s paid t
      → Minutes t u
      → Minute u repaid v
      → (k : SimulationUtxoKey) → contains Key_discrete k paid ≡ true
      → (has_claimed t k ≡ true) × (contains Key_discrete k repaid ≡ false)
  claimed_once {s} {t} {u} {v} {paid} {repaid} first between second k h =
      let claimed = (Minute-Books first k).0 ∙ ap (λ b. b || has_claimed s k) h in
      (
        claimed,
        elim (Bool-cases (contains Key_discrete k repaid)) [
          | inr no_more ↦ no_more
          | inl again ↦ cc ((Minute-Books second k).1 again, Minutes-keep k between claimed)
        ],
      )
