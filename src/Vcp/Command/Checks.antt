-- ===== src/Vcp/Command/Checks.antt =====
-- Which commands of vcp/src/command.rs a device accepts, back to its manifest.
use sovereign_stack.Base.{
  ℕ, ◌+◌, ◌≤◌, ◌≡◌, ◌↔◌, refl, subst, sym, ap, ◌∙◌, inl, inr, Bool, true, false, Bool-cases, Option,
  none, some, List, [], ◌∷◌, map, filter, find?, Text, Text_discrete, text, eqb, eqb_iff, ltb,
  if◌then◌else◌, Result, ok, err, ◌>>=◌, bind-eq-ok, ok_or, ok-injective, arith, All,
}
use sovereign_stack.Vcp.Manifest.{AgentDeviceManifest, VcpError}
use sovereign_stack.Vcp.Grant.{
  VcpCapabilityGrant, VcpGrantedCapability, VcpCapabilityRequest, Signing, is_expired, covers,
  issue,
}
use sovereign_stack.Vcp.Issued.{IsGrantable, passes, passes_iff, issue-IsIssued}
use sovereign_stack.Vcp.Command.{VcpCommand, get_number, check_speed, validate_command}

module _ {F : Type 0} (lt : F → F → Bool) (now : ℕ) (cmd : VcpCommand F)
    (g : VcpCapabilityGrant F) where
  abbrev pub Slow : Option F → Option F → Type 0
  Slow (some speed) (some limit) = lt limit speed ≡ false
  Slow _ _ = Unit

  -- What a device checks.
  pub record IsPermitted : Type 0 where
    pub current : now ≤ g.expires_at
    pub granted : VcpGrantedCapability F
    pub covered : find? (λ c. eqb Text_discrete c.id cmd.capability) g.capabilities ≡ some granted
    pub speed :
        cmd.capability ≡ text "locomotion"
        → Slow
            (get_number (text "speed_ms") cmd.params)
            (get_number (text "max_speed_ms") granted.limits)

  check_speed_iff : (s l : Option F) → (check_speed lt s l ≡ ok tt) ↔ Slow s l
  unfolding check_speed
  check_speed_iff none l = (λ e. tt, λ h. refl)
  check_speed_iff (some s) none = (λ e. tt, λ h. refl)
  check_speed_iff (some s) (some l) = (λ e. ground arith, λ h. ground arith)

  covers_gate :
      (b : Bool) (o : Option (VcpGrantedCapability F)) (x y : VcpError F)
      (c : VcpGrantedCapability F)
      → ((if b then err x else ok_or o y) ≡ ok c) ↔ ((b ≡ false) × (o ≡ some c))
  covers_gate true o x y c = ((λ h. cc), λ v. cc (v.0))
  covers_gate false none x y c = ((λ h. cc), λ v. cc (v.1))
  covers_gate false (some a) x y c = ((λ h. (refl, ap some (ok-injective h))), λ v. cc (v.1))

  covers_ok :
      (id : Text) (c : VcpGrantedCapability F)
      → (covers now g id ≡ ok c)
        ↔ ((now ≤ g.expires_at) × (find? (λ c. eqb Text_discrete c.id id) g.capabilities ≡ some c))
  unfolding covers is_expired
  covers_ok id c = (
    λ h. let (live, found) = (covers_gate _ _ _ _ c).0 h in (ground (arith, live), found),
    λ (live, found). (covers_gate _ _ _ _ c).1 (ground (arith, live), found),
  )

  late_gate :
      (b : Bool) (x : VcpError F) (m : Result (VcpError F) (Unit {0}))
      → ((if b then err x else m) ≡ ok tt) ↔ ((b ≡ false) × (m ≡ ok tt))
  late_gate true x m = ((λ h. cc), λ v. cc (v.0))
  late_gate false x m = ((λ h. (refl, h)), λ v. v.1)

  chained :
      {a : VcpGrantedCapability F} {m : Result (VcpError F) (VcpGrantedCapability F)}
      (f : VcpGrantedCapability F → Result (VcpError F) (Unit {0}))
      → m ≡ ok a
      → f a ≡ ok tt
      → (m >>= f) ≡ ok tt
  chained {a} {m} f h k = rw h k

  -- the rest of the check, once the capability is covered
  abbrev rest : Bool → Result (VcpError F) (Unit {0})
  rest b =
      if b
      then elim (get_number (text "speed_ms") cmd.params) [
        | none ↦ ok tt
        | some speed ↦ covers now g (text "locomotion") >>= λ granted.
            check_speed lt (some speed) (get_number (text "max_speed_ms") granted.limits)
      ]
      else ok tt

  probe :
      (o : Option F) (c : VcpGrantedCapability F)
      → covers now g (text "locomotion") ≡ ok c
      → (elim o as (λ o. Result (VcpError F) (Unit {0})) [
        | none ↦ ok tt
        | some speed ↦ covers now g (text "locomotion") >>= λ granted.
            check_speed lt (some speed) (get_number (text "max_speed_ms") granted.limits)
      ])
        ≡ check_speed lt o (get_number (text "max_speed_ms") c.limits)
  unfolding check_speed
  probe none c h = refl
  probe (some s) c h = rw h refl

  rest_iff :
      (c : VcpGrantedCapability F)
      → covers now g cmd.capability ≡ ok c
      → (rest (eqb Text_discrete cmd.capability (text "locomotion")) ≡ ok tt) ↔ (
          cmd.capability ≡ text "locomotion"
          → Slow
              (get_number (text "speed_ms") cmd.params)
              (get_number (text "max_speed_ms") c.limits))
  rest_iff c h = elim (Bool-cases (eqb Text_discrete cmd.capability (text "locomotion"))) [
    | inr walks ↦ rw walks (
      (λ e walking.
          cc (walks, (eqb_iff Text_discrete cmd.capability (text "locomotion")).1 walking)),
      λ v. refl,
    )
    | inl walks ↦
        let walking = (eqb_iff Text_discrete cmd.capability (text "locomotion")).0 walks in
        let found = subst (λ id. covers now g id ≡ ok c) walking h in
        rw walks (
          (λ e w.
              (check_speed_iff _ _).0
                (sym (probe (get_number (text "speed_ms") cmd.params) c found) ∙ e)),
          λ v.
              probe (get_number (text "speed_ms") cmd.params) c found
              ∙ (check_speed_iff _ _).1 (v walking),
        )
  ]

  -- A device accepts a command exactly when the grant has not expired and covers the capability and,
  -- if that is locomotion and both a speed is asked for and the grant has a limit, the limit is not
  -- below the speed.
  validate_command_iff : (validate_command lt now cmd g ≡ ok tt) ↔ IsPermitted
  unfolding validate_command is_expired
  validate_command_iff = (only, enough)
    where
      only : validate_command lt now cmd g ≡ ok tt → IsPermitted
      only h =
          let (live, chain) = (late_gate (ltb g.expires_at now) _ _).0 h in
          let (c, found, checked) = bind-eq-ok (covers now g cmd.capability) _ chain in
          let (current, covered) = (covers_ok cmd.capability c).0 found in
          record {
            current = current;
            granted = c;
            covered = covered;
            speed = (rest_iff c found).0 checked;
          }

      enough : IsPermitted → validate_command lt now cmd g ≡ ok tt
      enough v =
          let found = (covers_ok cmd.capability v.granted).1 (v.current, v.covered) in
          (late_gate (ltb g.expires_at now) _ _).1
            (ground (arith, v.current), chained _ found ((rest_iff v.granted found).1 v.speed))

filter-All : (p : Text → Bool) (ids : List Text) → All (λ id. p id ≡ true) (filter p ids)
filter-All p [] = tt
filter-All p (id ∷ ids) = elim (Bool-cases (p id)) [
  | inl keeps ↦ rw keeps (keeps, filter-All p ids)
  | inr drops ↦ rw drops (filter-All p ids)
]

module _ {F : Type 0} where
  -- What is found by an id has a test that holds of all the ids.
  find-All :
      (p : Text → Bool) (cs : List (VcpGrantedCapability F)) (id : Text)
      (c : VcpGrantedCapability F)
      → All (λ id. p id ≡ true) (map (λ c. c.id) cs)
      → find? (λ c. eqb Text_discrete c.id id) cs ≡ some c
      → p id ≡ true
  find-All p [] id c held found = cc
  find-All p (x ∷ cs) id c held found = elim (Bool-cases (eqb Text_discrete x.id id)) [
    | inl same ↦ subst (λ i. p i ≡ true) ((eqb_iff Text_discrete x.id id).0 same) held.0
    | inr other ↦ find-All p cs id c held.1 (ground (arith, other, found))
  ]

  -- A command that a device accepts under a grant that it has issued is for a capability that the
  -- device declares and neither marks nor lists as ungrantable, and it comes within 24 hours of the
  -- issuing.
  pub accepted-IsGrantable :
      (sg : Signing F) (lt : F → F → Bool) (u v : Text) (issued now : ℕ) (m : AgentDeviceManifest F)
      (request : VcpCapabilityRequest) (key : Text) (g : VcpCapabilityGrant F) (cmd : VcpCommand F)
      → issue sg u v issued m request key ≡ ok g
      → validate_command lt now cmd g ≡ ok tt
      → IsGrantable m cmd.capability × (now ≤ issued + 86400000)
  accepted-IsGrantable sg lt u v issued now m request key g cmd given accepted =
      let grant = issue-IsIssued sg u v issued m request key g given in
      let permit = (validate_command_iff lt now cmd g).0 accepted in
      let held =
        subst (All (λ id. passes m id ≡ true)) (sym grant.granted)
          (filter-All (passes m) request.capabilities) in
      (
        (passes_iff m cmd.capability).0
            (find-All (passes m) g.capabilities cmd.capability permit.granted held permit.covered),
        omega (arith, permit.current, grant.lasts),
      )
