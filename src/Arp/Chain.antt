-- ===== src/Arp/Chain.antt =====
-- The chains of arp-broker/src/bin/main.rs: what verify_chain tells, and what submissions one after
-- the other keep.
use sovereign_stack.Base.{
  ℕ, ◌+◌, ◌≡◌, ◌≢◌, ◌↔◌, ◌⊎◌, inl, inr, refl, sym, ap, subst, ◌∙◌, Bool-cases, true, false, Option,
  none, some, List, [], ◌∷◌, ◌++◌, Text, Text_discrete, eqb, eqb_iff, length, arith,
}
use mathlib.Core.Option.{some_inj}
use sovereign_stack.Shared.Merkle.{Hashing}
use sovereign_stack.Arp.Broker.{
  ActionReceipt, Canonical, Verification, valid, broken, hash, chain_valid, verify_from,
  verify_chain,
}

valid≢broken : {n k : ℕ} {t : Option Text} {e : Text} {g : Option Text} → valid n t ≢ broken k e g
valid≢broken q = cc

same_number :
    {j k : ℕ} {e e' : Text} {g g' : Option Text} → broken (0 + j) e g ≡ broken k e' g' → j ≡ k
same_number {j} {k} q = let same : 0 + j ≡ k = cc in omega arith

module _ (h : Hashing) (json : Canonical → Text) where
  -- A receipt names the hash of the one before it.
  abbrev pub Follows : ActionReceipt → ActionReceipt → Type 0
  Follows prev r = r.previous_hash ≡ some (hash h json prev)

  abbrev pub IsChainFrom : ActionReceipt → List ActionReceipt → Type 0
  IsChainFrom prev [] = Unit
  IsChainFrom prev (r ∷ rs) = Follows prev r × IsChainFrom r rs

  abbrev pub IsChain : List ActionReceipt → Type 0
  IsChain [] = Unit
  IsChain (r ∷ rs) = IsChainFrom r rs

  names_iff :
      (o : Option Text) (t : Text)
      → ((elim o [ none ↦ false | some p ↦ eqb Text_discrete p t ]) ≡ true) ↔ (o ≡ some t)
  names_iff none t = ((λ e. cc), λ e. cc)
  names_iff (some p) t = (
    (λ e. ap some ((eqb_iff Text_discrete p t).0 e)),
    λ e. (eqb_iff Text_discrete p t).1 (some_inj.0 e),
  )

  chain_valid_iff : (r prev : ActionReceipt) → (chain_valid h json r prev ≡ true) ↔ Follows prev r
  unfolding chain_valid
  chain_valid_iff r prev = names_iff r.previous_hash (hash h json prev)

  -- A chain that holds up to some place, and breaks there.
  pub record BreaksAt (rs : List ActionReceipt) (k : ℕ) : Type 0 where
    pub before : List ActionReceipt
    pub prev : ActionReceipt
    pub curr : ActionReceipt
    pub rest : List ActionReceipt
    pub place : rs ≡ before ++ (prev ∷ curr ∷ rest)
    pub number : k ≡ length before + 1
    pub holds : IsChain (before ++ (prev ∷ []))
    pub breaks : ¬ Follows prev curr

  extend :
      (before : List ActionReceipt) (first r prev : ActionReceipt) (rs tail : List ActionReceipt)
      → r ∷ rs ≡ before ++ (prev ∷ tail)
      → Follows first r
      → IsChain (before ++ (prev ∷ []))
      → IsChain (first ∷ (before ++ (prev ∷ [])))
  extend [] first r prev rs tail e f c =
      let same : r ≡ prev = cc in (subst (Follows first) same f, tt)
  extend (x ∷ before) first r prev rs tail e f c =
      let same : r ≡ x = cc in (subst (Follows first) same f, c)

  BreaksAt-cons :
      (first r : ActionReceipt) (rs : List ActionReceipt) (k : ℕ)
      → Follows first r
      → BreaksAt (r ∷ rs) k
      → BreaksAt (first ∷ r ∷ rs) (1 + k)
  BreaksAt-cons first r rs k f b = record {
    before = first ∷ b.before;
    prev = b.prev;
    curr = b.curr;
    rest = b.rest;
    place = ap (λ t. first ∷ t) b.place;
    number = omega (arith, b.number);
    holds = extend b.before first r b.prev rs (b.curr ∷ b.rest) b.place f b.holds;
    breaks = b.breaks;
  }

  -- The two outcomes of a verification from the window `i` on.
  abbrev Verified :
      (i : ℕ) (prev : ActionReceipt) (rs : List ActionReceipt) (n : ℕ) → Verification → Type 0
  Verified i prev rs n v =
      ((t : Text) × (v ≡ valid n (some t)) × IsChainFrom prev rs)
      ⊎ ((k : ℕ) × (e : Text) × (g : Option Text) × (v ≡ broken (i + k) e g)
          × BreaksAt (prev ∷ rs) k)

  verify_next :
      (i : ℕ) (prev r : ActionReceipt) (rs : List ActionReceipt) (n : ℕ) (v : Verification)
      → Follows prev r
      → Verified (i + 1) r rs n v
      → Verified i prev (r ∷ rs) n v
  verify_next i prev r rs n v f (inl (t, e, c)) = inl (t, e, (f, c))
  verify_next i prev r rs n v f (inr (k, e, g, q, b)) =
      inr (1 + k, e, g, q ∙ ap (λ m. broken m e g) (omega arith), BreaksAt-cons prev r rs k f b)

  verify_from-Verified :
      (i : ℕ) (prev : ActionReceipt) (rs : List ActionReceipt) (n : ℕ)
      → Verified i prev rs n (verify_from h json i prev rs n)
  unfolding verify_from
  verify_from-Verified i prev [] n = inl (hash h json prev, refl, tt)
  verify_from-Verified i prev (r ∷ rs) n = elim (Bool-cases (chain_valid h json r prev)) [
    | inl y ↦
        rw (verify_from, y)
          (verify_next i prev r rs n (verify_from h json (i + 1) r rs n)
            ((chain_valid_iff r prev).0 y) (verify_from-Verified (i + 1) r rs n))
    | inr no_link ↦
        rw (verify_from, no_link)
          (inr (
            1,
            hash h json prev,
            r.previous_hash,
            refl,
            record {
              before = [];
              prev = prev;
              curr = r;
              rest = rs;
              place = refl;
              number = refl;
              holds = tt;
              breaks = λ f. cc (no_link, (chain_valid_iff r prev).1 f);
            },
          ))
  ]

  chain_link :
      (before : List ActionReceipt) (prev curr : ActionReceipt) (rest : List ActionReceipt)
      → IsChain (before ++ (prev ∷ curr ∷ rest))
      → Follows prev curr
  chain_link [] prev curr rest c = c.0
  chain_link (x ∷ []) prev curr rest c = c.1.0
  chain_link (x ∷ y ∷ before) prev curr rest c = chain_link (y ∷ before) prev curr rest c.1

  not-IsChain : (rs : List ActionReceipt) (k : ℕ) → BreaksAt rs k → ¬ IsChain rs
  not-IsChain rs k b c =
      b.breaks (chain_link b.before b.prev b.curr b.rest (subst IsChain b.place c))

  abbrev Told : List ActionReceipt → Verification → Type 0
  Told rs v =
      (((t : Option Text) × (v ≡ valid (length rs) t)) ↔ IsChain rs)
      × ((k : ℕ) (e : Text) (g : Option Text) → v ≡ broken k e g → BreaksAt rs k)

  told :
      (r : ActionReceipt) (rs : List ActionReceipt) (v : Verification)
      → Verified 0 r rs (length (r ∷ rs)) v
      → Told (r ∷ rs) v
  told r rs v (inl (t, q, c)) =
      ((λ x. c, λ x. (some t, q)), λ k e g w. absurd (valid≢broken (sym q ∙ w)))
  told r rs v (inr (k, e, g, q, b)) = (
    (λ (t, w). absurd (valid≢broken (sym w ∙ q)), λ c. absurd (not-IsChain (r ∷ rs) k b c)),
    λ k' e' g' w. subst (BreaksAt (r ∷ rs)) (same_number (sym q ∙ w)) b,
  )

  -- Receipts are found to be a chain exactly when each names the hash of the one before it; if they
  -- are not, the number that is reported is that of the first receipt that does not, and those
  -- before it are a chain.
  pub verify_chain_iff :
      (rs : List ActionReceipt)
      → (((t : Option Text) × (verify_chain h json rs ≡ valid (length rs) t)) ↔ IsChain rs)
        × ((k : ℕ) (e : Text) (g : Option Text)
            → verify_chain h json rs ≡ broken k e g
            → BreaksAt rs k)
  unfolding verify_chain
  verify_chain_iff [] = ((λ x. tt, λ x. (none, refl)), λ k e g w. absurd (valid≢broken w))
  verify_chain_iff (r ∷ rs) =
      told r rs (verify_from h json 0 r rs (length (r ∷ rs)))
        (verify_from-Verified 0 r rs (length (r ∷ rs)))
