-- ===== src/Ucx/Matching.antt =====
-- Which provider the broker of ucx-broker/src/broker.rs gives a job to.
use sovereign_stack.Base.{
  ℕ, ◌≤◌, ◌<◌, ◌≡◌, ◌⊎◌, refl, subst, sym, ap, ◌∙◌, inl, inr, Bool, true, false, Bool-cases, Option,
  none, some, List, [], ◌∷◌, ◌++◌, All, ltb, if◌then◌else◌, Result, err, arith,
}
use sovereign_stack.Ucx.Job.{Job, Allocation, UcxError, insufficient_capacity}
use sovereign_stack.Ucx.Broker.{
  Floats, ComputeProvider, Broker, score_for, best_from, try_allocate, submit,
}

module _ {F : Type 0} (fl : Floats F) (job : Job F) where
  abbrev score : ComputeProvider F → ℕ
  score p = score_for fl job p

  abbrev pub Declines : ComputeProvider F → Type 0
  Declines p = p.can_accept job ≡ false

  abbrev pub Below : ℕ → ComputeProvider F → Type 0
  Below n p = p.can_accept job ≡ true → score p < n

  abbrev pub UpTo : ℕ → ComputeProvider F → Type 0
  UpTo n p = p.can_accept job ≡ true → score p ≤ n

  -- The first of the providers with the highest score among those that accept the job.
  pub record IsBest (providers : List (ComputeProvider F)) (p : ComputeProvider F) : Type 0 where
    pub earlier : List (ComputeProvider F)
    pub rest : List (ComputeProvider F)
    pub place : providers ≡ earlier ++ (p ∷ rest)
    pub accepts : p.can_accept job ≡ true
    pub beats : All (Below (score p)) earlier
    pub holds : All (UpTo (score p)) rest

  -- How the loop goes on from a best so far.
  abbrev Onward : ComputeProvider F → List (ComputeProvider F) → Type 0
  Onward q ps =
      ((best_from fl job (some (score q, q)) ps ≡ some (score q, q)) × All (UpTo (score q)) ps)
      ⊎ ((p : ComputeProvider F) × (best_from fl job (some (score q, q)) ps ≡ some (score p, p))
          × (score q < score p)
          × IsBest ps p)

  past :
      (x p : ComputeProvider F) (ps : List (ComputeProvider F))
      → Below (score p) x
      → IsBest ps p
      → IsBest (x ∷ ps) p
  past x p ps lower b = record {
    earlier = x ∷ b.earlier;
    rest = b.rest;
    place = ap (λ l. x ∷ l) b.place;
    accepts = b.accepts;
    beats = (lower, b.beats);
    holds = b.holds;
  }

  first :
      (x : ComputeProvider F) (ps : List (ComputeProvider F))
      → x.can_accept job ≡ true
      → All (UpTo (score x)) ps
      → IsBest (x ∷ ps) x
  first x ps accepts h = record {
    earlier = [];
    rest = ps;
    place = refl;
    accepts = accepts;
    beats = tt;
    holds = h;
  }

  onward : (q : ComputeProvider F) (ps : List (ComputeProvider F)) → Onward q ps
  unfolding best_from
  onward q [] = inl (refl, tt)
  onward q (x ∷ ps) = elim (Bool-cases (x.can_accept job)) [
    | inr declines ↦ elim (onward q ps) [
      | inl (e, h) ↦ rw declines (inl (e, ((λ c. cc), h)))
      | inr (p, e, above, b) ↦
          rw declines (inr (p, e, above, past x p ps (λ c. cc (declines, c)) b))
    ]
    | inl accepts ↦ elim (Bool-cases (ltb (score q) (score x))) [
      | inl better ↦ elim (onward x ps) [
        | inl (e, h) ↦
            rw (accepts, better) (inr (x, e, ground (arith, better), first x ps accepts h))
        | inr (p, e, above, b) ↦
            rw (accepts, better)
              (inr (p, e, ground (arith, better, above), past x p ps (λ c. above) b))
      ]
      | inr worse ↦ elim (onward q ps) [
        | inl (e, h) ↦ rw (accepts, worse) (inl (e, ((λ c. ground (arith, worse)), h)))
        | inr (p, e, above, b) ↦
            rw (accepts, worse)
              (inr (p, e, above, past x p ps (λ c. ground (arith, worse, above)) b))
      ]
    ]
  ]

  -- The loop from the start: no provider accepts, or the best of them is found.
  best :
      (ps : List (ComputeProvider F))
      → ((best_from fl job none ps ≡ none) × All Declines ps)
        ⊎ ((p : ComputeProvider F) × (best_from fl job none ps ≡ some (score p, p)) × IsBest ps p)
  unfolding best_from
  best [] = inl (refl, tt)
  best (x ∷ ps) = elim (Bool-cases (x.can_accept job)) [
    | inr declines ↦ elim (best ps) [
      | inl (e, h) ↦ inl (rw declines e, (declines, h))
      | inr (p, e, b) ↦ inr (p, rw declines e, past x p ps (λ c. cc (declines, c)) b)
    ]
    | inl accepts ↦ elim (onward x ps) [
      | inl (e, h) ↦ inr (x, rw accepts e, first x ps accepts h)
      | inr (p, e, above, b) ↦ inr (p, rw accepts e, past x p ps (λ c. above) b)
    ]
  ]

  try_allocate_cases :
      (ps : List (ComputeProvider F))
      → ((try_allocate fl ps job ≡ none) × All Declines ps)
        ⊎ ((p : ComputeProvider F) × (try_allocate fl ps job ≡ some (p.submit job)) × IsBest ps p)
  unfolding try_allocate
  try_allocate_cases ps = elim (best ps) [
    | inl (e, h) ↦ inl (rw (try_allocate, e) refl, h)
    | inr (p, e, b) ↦ inr (p, rw (try_allocate, e) refl, b)
  ]

  -- The answer to a job.
  pub data Match (b : Broker F) : Result UcxError Allocation → Type 0 where
    native_match : (p : ComputeProvider F) → IsBest b.native p → Match b (p.submit job)
    external_match :
        (p : ComputeProvider F)
        → All Declines b.native
        → job.constraints.allow_external ≡ true
        → IsBest b.external p
        → Match b (p.submit job)
    no_match :
        All Declines b.native
        → (job.constraints.allow_external ≡ false) ⊎ All Declines b.external
        → Match b (err insufficient_capacity)

  abbrev settle : Option (Result UcxError Allocation) → Result UcxError Allocation
  settle (some allocation) = allocation
  settle none = err insufficient_capacity

  stay :
      (b : Broker F)
      → try_allocate fl b.native job ≡ none
      → job.constraints.allow_external ≡ false
      → submit fl b job ≡ err insufficient_capacity
  unfolding submit
  stay b e closed = rw (submit, e, closed) refl

  overflow :
      (b : Broker F)
      → try_allocate fl b.native job ≡ none
      → job.constraints.allow_external ≡ true
      → submit fl b job ≡ settle (try_allocate fl b.external job)
  unfolding submit
  overflow b e opened =
      rw (submit, e) (go job.constraints.allow_external (try_allocate fl b.external job) opened)
    where
      go :
          (a : Bool) (o : Option (Result UcxError Allocation))
          → a ≡ true
          → (if a
              then elim o [ some allocation ↦ allocation | none ↦ err insufficient_capacity ]
              else err insufficient_capacity)
            ≡ settle o
      go true (some x) h = refl
      go true none h = refl
      go false o h = cc

  -- A job goes to the first of the native providers with the highest score among those that accept
  -- it; if none accepts and the job allows it, to the best external one in the same sense; and if
  -- there is none either, the answer is insufficient capacity. The answer is the provider's own,
  -- also when that is an error.
  pub submit-Match : (b : Broker F) → Match b (submit fl b job)
  unfolding submit
  submit-Match b = elim (try_allocate_cases b.native) [
    | inr (p, e, best_native) ↦
        subst (Match b) (sym (rw (submit, e) refl)) (native_match p best_native)
    | inl (e, none_native) ↦ elim (Bool-cases job.constraints.allow_external) [
      | inr closed ↦ subst (Match b) (sym (stay b e closed)) (no_match none_native (inl closed))
      | inl opened ↦ elim (try_allocate_cases b.external) [
        | inr (p, f, best_external) ↦
            subst (Match b) (sym (overflow b e opened ∙ ap settle f))
              (external_match p none_native opened best_external)
        | inl (f, none_external) ↦
            subst (Match b) (sym (overflow b e opened ∙ ap settle f))
              (no_match none_native (inr none_external))
      ]
    ]
  ]
