-- ===== src/Twin/Rollout.antt =====
-- The stub engine of twin-protocol/src/osovm.rs gives what a receipt asks for.
use sovereign_stack.Base.{
  ℕ, suc, ◌-◌, ◌≤◌, ◌≡◌, ◌≢◌, ◌⊎◌, inl, inr, refl, sym, ap, subst, ◌∙◌, Bool, Bool-cases, true,
  false, not, Option, none, some, List, [], ◌∷◌, ◌++◌, map, Text, text, Text_discrete, eqb, eqb_iff,
  length, All, ltb, Ordering, ok, if◌then◌else◌, arith,
}
use sovereign_stack.Twin.Simulation.{SimPolicy, has_id, any}
use sovereign_stack.Twin.Engine.{
  SimScenario, TrajectoryResult, OsovmRunResult, OsovmEngine, Twin, Arithmetic, Tally, policy_name,
  less, trajectory, trajectories_from, tally, tally_all, average, measure, best_from, select_policy,
  max_2, run_stub,
}

-- A map has a key.
abbrev Has : {V : Type 0} → Text → List (Text × V) → Type 0
Has k [] = ⊥
Has k ((j, v) ∷ m) = (j ≡ k) ⊎ Has k m

two_keys :
    {V : Type 0} (k j : Text) (m : List (Text × V)) → k ≢ j → Has k m → Has j m → 2 ≤ length m
two_keys k j [] n h h' = absurd h
two_keys k j (e ∷ []) n (inl p) (inl q) = absurd (n (sym p ∙ q))
two_keys k j (e ∷ []) n (inr h) h' = absurd h
two_keys k j (e ∷ []) n (inl p) (inr h') = absurd h'
two_keys k j (e ∷ f ∷ m) n h h' = omega arith

length-map : {A B : Type 0} (f : A → B) (xs : List A) → length (map f xs) ≡ length xs
length-map f [] = refl
length-map f (x ∷ xs) = ap suc (length-map f xs)

any_of_if :
    {V : Type 0} (k : Text) (b c : Bool) (x y z : List (Text × V))
    → Has k x
    → Has k y
    → Has k z
    → Has k (if b then x else if c then y else z)
any_of_if k true c x y z p q r = p
any_of_if k false true x y z p q r = q
any_of_if k false false x y z p q r = r

module _ {F : Type 0} (a : Arithmetic F) where
  Has-tally : (t : TrajectoryResult F) (m : List (Text × Tally F)) → Has t.policy_id (tally a t m)
  unfolding tally
  Has-tally t [] = inl refl
  Has-tally t ((k, e) ∷ m) = ground (arith, eqb_iff Text_discrete k t.policy_id, Has-tally t m)

  tally_keeps :
      (k : Text) (t : TrajectoryResult F) (m : List (Text × Tally F))
      → Has k m
      → Has k (tally a t m)
  unfolding tally
  tally_keeps k t [] h = absurd h
  tally_keeps k t ((j, e) ∷ m) (inl p) =
      any_of_if k (eqb Text_discrete j t.policy_id) (less t.policy_id j) _ _ _ (inl p) (inr (inl p))
        (inl p)
  tally_keeps k t ((j, e) ∷ m) (inr h) =
      any_of_if k (eqb Text_discrete j t.policy_id) (less t.policy_id j) _ _ _ (inr h) (inr (inr h))
        (inr (tally_keeps k t m h))

  tally_all_keeps :
      (k : Text) (ts : List (TrajectoryResult F)) (m : List (Text × Tally F))
      → Has k m
      → Has k (tally_all a ts m)
  unfolding tally_all
  tally_all_keeps k [] m h = h
  tally_all_keeps k (t ∷ ts) m h = tally_all_keeps k ts (tally a t m) (tally_keeps k t m h)

  module _ (run_id : Text) (f1 : F) where
    abbrev rollouts : ℕ → List (TrajectoryResult F)
    rollouts n = trajectories_from a run_id f1 n 0

    abbrev policies : ℕ → List (SimPolicy F)
    policies n = map (average a) (tally_all a (rollouts n) [])

    abbrev start : ℕ → List (Text × Tally F)
    start n = tally_all a (rollouts n) []

    Has-start :
        (n : ℕ)
        → Has (text "policy:conservative") (start (suc (suc n)))
          × Has (text "policy:balanced") (start (suc (suc n)))
    unfolding trajectories_from tally_all trajectory policy_name
    Has-start n =
        let first = trajectory a run_id f1 0 in
        let second = trajectory a run_id f1 1 in
        let rest = trajectories_from a run_id f1 n 2 in
        let once = tally a first [] in
        (
          tally_all_keeps (text "policy:conservative") rest (tally a second once)
              (tally_keeps (text "policy:conservative") second once (Has-tally first [])),
          tally_all_keeps (text "policy:balanced") rest (tally a second once)
              (Has-tally second once),
        )

    other_names : text "policy:conservative" ≢ text "policy:balanced"
    other_names e = cc

    two_policies_of : (n : ℕ) → 2 ≤ length (policies (suc (suc n)))
    two_policies_of n =
        let two =
          two_keys (text "policy:conservative") (text "policy:balanced") (start (suc (suc n)))
            other_names (Has-start n).0 (Has-start n).1 in
        rw (length-map (average a) (start (suc (suc n)))) two

    -- The first two rollouts go by two policies.
    two_policies : (n : ℕ) → 2 ≤ length (policies (max_2 n))
    unfolding max_2
    two_policies n = elim (Bool-cases (ltb n 2)) [
      | inl few ↦ rw few (two_policies_of 0)
      | inr many ↦
          let e : n ≡ suc (suc (n - 2)) = ground arith in
          rw many (subst (λ k. 2 ≤ length (policies k)) (sym e) (two_policies_of (n - 2)))
    ]

  -- Each two policies can be compared: none of the numbers is NaN.
  abbrev pub Comparable : Text → List (SimPolicy F) → Type 0
  Comparable objective [] = Unit
  Comparable objective (p ∷ ps) =
      All (λ q. a.compare (measure a objective p) (measure a objective q) ≢ none) ps
      × Comparable objective ps

  -- An id that one of the policies has.
  abbrev pub Offers : Text → List (SimPolicy F) → Type 0
  Offers id ps = any (has_id id) ps ≡ true

  Offers-first : (p : SimPolicy F) (ps : List (SimPolicy F)) → Offers p.id (p ∷ ps)
  Offers-first p ps = rw ((eqb_iff Text_discrete p.id p.id).1 refl) refl

  Offers-rest :
      (id : Text) (p : SimPolicy F) (ps : List (SimPolicy F)) → Offers id ps → Offers id (p ∷ ps)
  Offers-rest id p ps h = ground arith

  Offers-skip :
      (id : Text) (p q : SimPolicy F) (ps : List (SimPolicy F))
      → Offers id (p ∷ ps)
      → Offers id (p ∷ q ∷ ps)
  Offers-skip id p q ps h = ground arith

  abbrev Best : Text → List (SimPolicy F) → Option (SimPolicy F) → Type 0
  Best objective ps o = (b : SimPolicy F) × (o ≡ some b) × Offers b.id ps

  Best-step :
      (objective : Text) (p q : SimPolicy F) (qs : List (SimPolicy F)) (o : Option Ordering)
      → o ≢ none
      → Best objective (p ∷ qs) (best_from a objective p qs)
      → Best objective (q ∷ qs) (best_from a objective q qs)
      → Best objective (p ∷ q ∷ qs) (elim o [
        | none ↦ none
        | some c ↦ elim c [
          | Ordering.gt ↦ best_from a objective q qs
          | _ ↦ best_from a objective p qs
        ]
      ])
  Best-step objective p q qs none n s t = absurd (n refl)
  Best-step objective p q qs (some Ordering.gt) n s (b, e, o) =
      (b, e, Offers-rest b.id p (q ∷ qs) o)
  Best-step objective p q qs (some Ordering.lt) n (b, e, o) t = (b, e, Offers-skip b.id p q qs o)
  Best-step objective p q qs (some Ordering.eq) n (b, e, o) t = (b, e, Offers-skip b.id p q qs o)

  best_from_total :
      (objective : Text) (p : SimPolicy F) (qs : List (SimPolicy F))
      → Comparable objective (p ∷ qs)
      → Best objective (p ∷ qs) (best_from a objective p qs)
  unfolding best_from
  best_from_total objective p [] h = (p, refl, Offers-first p [])
  best_from_total objective p (q ∷ qs) h =
      Best-step objective p q qs (a.compare (measure a objective p) (measure a objective q)) h.0.0
        (best_from_total objective p qs (h.0.1, h.1.1)) (best_from_total objective q qs h.1)

  -- A run that a receipt can be built from.
  pub record IsRun (r : OsovmRunResult F) : Type 0 where
    pub policies : 2 ≤ length r.candidate_policies
    pub selected : Offers r.selected_policy_id r.candidate_policies

  select_policy_total :
      (objective : Text) (ps : List (SimPolicy F))
      → 1 ≤ length ps
      → Comparable objective ps
      → (id : Text) × (select_policy a ps objective ≡ ok id) × Offers id ps
  unfolding select_policy
  select_policy_total objective [] h c = absurd (omega arith)
  select_policy_total objective (p ∷ ps) h c =
      let (b, e, o) = best_from_total objective p ps c in (b.id, rw (select_policy, e) refl, o)

  -- The policies that the stub works out.
  abbrev pub stub_policies : (uuid : Text) → Twin F → SimScenario → List (SimPolicy F)
  stub_policies uuid twin scenario =
      policies (text "osovm:run:" ++ uuid) twin.f1_score (max_2 scenario.trajectory_count)

  -- The stub never falls short of policies: unless a number is NaN, it returns at least two of
  -- them, and selects one of these.
  pub run_stub_total :
      (uuid : Text) (engine : OsovmEngine) (twin : Twin F) (scenario : SimScenario)
      → Comparable scenario.selection_objective (stub_policies uuid twin scenario)
      → (r : OsovmRunResult F) × (run_stub a uuid engine twin scenario ≡ ok r)
        × IsRun r
        × (r.candidate_policies ≡ stub_policies uuid twin scenario)
  unfolding run_stub
  run_stub_total uuid engine twin scenario c =
      let ps = stub_policies uuid twin scenario in
      let two = two_policies (text "osovm:run:" ++ uuid) twin.f1_score scenario.trajectory_count in
      let (id, e, o) = select_policy_total scenario.selection_objective ps (omega arith) c in
      let enough : not (ltb (length ps) 2) ≡ true = ground arith in
      (
        record {
          engine_version = engine.engine_version;
          scenario = scenario;
          trajectories =
              trajectories_from a (text "osovm:run:" ++ uuid) twin.f1_score
                (max_2 scenario.trajectory_count) 0;
          candidate_policies = ps;
          selected_policy_id = id;
          run_id = text "osovm:run:" ++ uuid;
          wall_ms = 0;
        },
        rw (enough, e) refl,
        record { policies = two; selected = o },
        refl,
      )
