-- ===== src/Vcp/Issued.antt =====
-- What a grant of vcp/src/grant.rs may contain.
use sovereign_stack.Base.{
  ℕ, ◌+◌, ◌*◌, ◌≤◌, ◌≡◌, ◌↔◌, refl, subst, ok-injective, sym, ap, ◌∙◌, inl, inr, Bool, true, false,
  not, ◌||◌, some, Option-cases, List, [], ◌∷◌, map, filter, Text, Text_discrete, contains,
  if◌then◌else◌, Result, ok, err, bind-eq-ok, arith,
}
use sovereign_stack.Vcp.Manifest.{
  AgentDeviceManifest, VcpCapabilityDecl, VcpError, capability, is_grantable,
}
use sovereign_stack.Vcp.Grant.{
  Signing, VcpCapabilityRequest, VcpDuration, VcpCapabilityGrant, VcpGrantedCapability,
  VcpDeniedCapability, VcpDenyReason, unavailable, default_limits, sort_out, duration_of, issue,
}

-- Declared, not marked as ungrantable and not on the device's list of what it never grants.
pub record IsGrantable {F : Type 0} (m : AgentDeviceManifest F) (id : Text) : Type 0 where
  pub decl : VcpCapabilityDecl
  pub declared : capability m id ≡ some decl
  pub unmarked : decl.ungrantable ≡ false
  pub unlisted : contains Text_discrete id m.safety.ungrantable ≡ false

module _ {F : Type 0} (m : AgentDeviceManifest F) where
  judged :
      (id : Text) (decl : VcpCapabilityDecl)
      → capability m id ≡ some decl
      → is_grantable m id ≡ (
          if decl.ungrantable || contains Text_discrete id m.safety.ungrantable
          then err (VcpError.ungrantable id)
          else ok tt)
  unfolding is_grantable
  judged id decl e = rw (is_grantable, e) refl

  gate :
      (a b : Bool) (x : VcpError F)
      → ◌≡◌ {A = Result (VcpError F) (Unit {0})} (if a || b then err x else ok tt) (ok tt)
        ↔ ((a ≡ false) × (b ≡ false))
  gate a b x = (λ h. ground arith, λ v. ground arith)

  -- `is_grantable` accepts exactly the grantable.
  pub is_grantable_iff : (id : Text) → (is_grantable m id ≡ ok tt) ↔ IsGrantable m id
  unfolding is_grantable
  is_grantable_iff id = elim (Option-cases (capability m id)) [
    | inl e ↦ rw (is_grantable, e) ((λ h. cc), λ v. cc (e, v.declared))
    | inr (decl, e) ↦ (
      λ h.
          let (unmarked, unlisted) = (gate _ _ _).0 (sym (judged id decl e) ∙ h) in
          record { decl = decl; declared = e; unmarked = unmarked; unlisted = unlisted },
      λ v. judged id v.decl v.declared ∙ (gate _ _ _).1 (v.unmarked, v.unlisted),
    )
  ]

  abbrev is_ok : Result (VcpError F) (Unit {0}) → Bool
  is_ok (ok _) = true
  is_ok (err _) = false

  -- The test that decides on a capability.
  abbrev pub passes : Text → Bool
  passes id = is_ok (is_grantable m id)

  is_ok_iff : (r : Result (VcpError F) (Unit {0})) → (is_ok r ≡ true) ↔ (r ≡ ok tt)
  is_ok_iff (ok tt) = (λ e. refl, λ e. refl)
  is_ok_iff (err e) = (λ h. cc, λ h. cc)

  pub passes_iff : (id : Text) → (passes id ≡ true) ↔ IsGrantable m id
  passes_iff id =
      let (f, g) = is_ok_iff (is_grantable m id) in
      let (h, k) = is_grantable_iff id in ((λ e. h (f e)), λ v. g (k v))

module _ {F : Type 0} (sg : Signing F) (m : AgentDeviceManifest F) where
  abbrev file :
      Result (VcpError F) (Unit {0})
      → Text
      → List (VcpGrantedCapability F) × List VcpDeniedCapability
      → List (VcpGrantedCapability F) × List VcpDeniedCapability
  file r id rest = elim r [
    | err (VcpError.ungrantable _) ↦
        (rest.0, record { id = id; reason = VcpDenyReason.ungrantable } ∷ rest.1)
    | err _ ↦ (rest.0, record { id = id; reason = unavailable } ∷ rest.1)
    | ok _ ↦ (record { id = id; limits = default_limits sg id m } ∷ rest.0, rest.1)
  ]

  granted_step :
      (r : Result (VcpError F) (Unit {0})) (id : Text)
      (rest : List (VcpGrantedCapability F) × List VcpDeniedCapability)
      → (map (λ c. c.id) (file r id rest).0
          ≡ (if is_ok m r then id ∷ map (λ c. c.id) rest.0 else map (λ c. c.id) rest.0))
        × (map (λ d. d.id) (file r id rest).1
            ≡ (if not (is_ok m r) then id ∷ map (λ d. d.id) rest.1 else map (λ d. d.id) rest.1))
  granted_step (ok _) id rest = (refl, refl)
  granted_step (err (VcpError.ungrantable _)) id rest = (refl, refl)
  granted_step (err _) id rest = (refl, refl)

  sorted :
      (ids : List Text)
      → (map (λ c. c.id) (sort_out sg m ids).0 ≡ filter (passes m) ids)
        × (map (λ d. d.id) (sort_out sg m ids).1 ≡ filter (λ id. not (passes m id)) ids)
  unfolding sort_out
  sorted [] = (refl, refl)
  sorted (id ∷ ids) =
      let (granted, refused) = sorted ids in
      let (g, d) = granted_step (is_grantable m id) id (sort_out sg m ids) in
      (
        g ∙ ap (λ l. if passes m id then id ∷ l else l) granted,
        d ∙ ap (λ l. if not (passes m id) then id ∷ l else l) refused,
      )

-- What a grant says of the device, the request and the time.
pub record IsIssued {F : Type 0} (now : ℕ) (m : AgentDeviceManifest F)
    (asked : VcpCapabilityRequest) (g : VcpCapabilityGrant F) : Type 0 where
  pub granted : map (λ c. c.id) g.capabilities ≡ filter (passes m) asked.capabilities
  pub refused : map (λ d. d.id) g.denied ≡ filter (λ id. not (passes m id)) asked.capabilities
  pub device : g.device_id ≡ m.device_id
  pub request : g.request_id ≡ asked.request_id
  pub identity : g.identity ≡ asked.identity
  pub since : g.issued_at ≡ now
  pub lasts : g.expires_at ≤ now + 86400000
  pub agreed : g.expires_at ≤ now + asked.duration.max_min * 60000

module _ {F : Type 0} (sg : Signing F) where
  duration_bound : (d : VcpDuration) → (duration_of sg d ≤ 1440) × (duration_of sg d ≤ d.max_min)
  unfolding duration_of
  duration_bound d = (omega arith, omega arith)

  -- A grant that is issued holds, in the order of the request, exactly the requested capabilities
  -- that the device can grant, and denies exactly the others; it names the device, the request and
  -- its identity, and ends at most 24 hours later and within the requested maximum.
  pub issue-IsIssued :
      (u v : Text) (now : ℕ) (m : AgentDeviceManifest F) (request : VcpCapabilityRequest)
      (key : Text) (g : VcpCapabilityGrant F)
      → issue sg u v now m request key ≡ ok g
      → IsIssued now m request g
  unfolding issue
  issue-IsIssued u v now m request key g h =
      let (sig, signed, e) = bind-eq-ok (sg.sign _ key) _ h in
      subst (IsIssued now m request) (ok-injective e) (record {
        granted = (sorted sg m request.capabilities).0;
        refused = (sorted sg m request.capabilities).1;
        device = refl;
        request = refl;
        identity = refl;
        since = refl;
        lasts = omega (arith, (duration_bound request.duration).0);
        agreed = omega (arith, (duration_bound request.duration).1);
      })
