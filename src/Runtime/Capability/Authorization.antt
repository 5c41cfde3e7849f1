-- ===== src/Runtime/Capability/Authorization.antt =====
-- What the kernel of sovereign-runtime/src/capability.rs grants, against an independent statement.
use sovereign_stack.Base.{
  ℕ, ◌≤◌, ◌≡◌, refl, ◌↔◌, ◌≢◌, inl, inr, Option-cases, List, [], ◌∷◌, true, false, Option, none,
  some, All, Text, arith,
}
use sovereign_stack.Runtime.Identity.{level}
use sovereign_stack.Runtime.Principal.{Principal}
use sovereign_stack.Runtime.Capability.{
  CapabilityAction, Capability, Constraint, time_window, geo_fence, resource_matches,
  evaluate_constraint, first_violation, is_past, evaluate,
}

-- What a constraint asks at a time. Rates, data classes and custom rules are not judged here.
abbrev pub Holds : ℕ → Constraint → Type 0
Holds now (time_window start until) = (start ≤ now) × (now ≤ until)
Holds now (geo_fence tile_ids) = tile_ids ≢ []
Holds now _ = Unit

abbrev pub IsCurrent : Option ℕ → ℕ → Type 0
IsCurrent none now = Unit
IsCurrent (some expiry) now = now ≤ expiry

-- All that a grant means.
pub record IsAuthorized (p : Principal) (c : Capability) (a : CapabilityAction) (r : Text) (now : ℕ)
    : Type 0 where
  pub holder : c.granted_to ≡ p.chain.principal_id
  pub action : c.action ≡ a
  pub resource : resource_matches c.resource r ≡ true
  pub current : IsCurrent c.expires_at now
  pub ceiling : level c.safety_level ≤ level p.safety_level
  pub constraints : All (Holds now) c.constraints

evaluate_constraint_iff :
    (c : Constraint) (now : ℕ) → (evaluate_constraint c now ≡ none) ↔ Holds now c
unfolding evaluate_constraint
evaluate_constraint_iff (time_window s u) now = (λ e. ground arith, λ h. ground arith)
evaluate_constraint_iff (geo_fence []) now = (λ e. cc, λ h. absurd (h refl))
evaluate_constraint_iff (geo_fence (t ∷ ts)) now = (λ e p. cc, λ h. refl)
evaluate_constraint_iff _ now = (λ e. tt, λ h. refl)

first_violation_iff :
    (cs : List Constraint) (now : ℕ) → (first_violation cs now ≡ none) ↔ All (Holds now) cs
unfolding first_violation
first_violation_iff [] now = (λ e. tt, λ h. refl)
first_violation_iff (c ∷ cs) now = elim (Option-cases (evaluate_constraint c now)) [
  | inl e ↦
      rw (e, first_violation)
        (
          λ h. ((evaluate_constraint_iff c now).0 e, (first_violation_iff cs now).0 h),
          λ h. (first_violation_iff cs now).1 h.1,
        )
  | inr (reason, e) ↦
      rw (e, first_violation) (λ h. cc, λ h. cc (e, (evaluate_constraint_iff c now).1 h.0))
]

is_past_iff : (o : Option ℕ) (now : ℕ) → (is_past o now ≡ false) ↔ IsCurrent o now
is_past_iff none now = (λ e. tt, λ u. refl)
is_past_iff (some t) now = (λ e. ground arith, λ h. ground arith)

module _ (p : Principal) (c : Capability) (a : CapabilityAction) (r : Text) (now : ℕ) where
  only : (evaluate p c a r now).granted ≡ true → IsAuthorized p c a r now
  unfolding evaluate
  only h = record {
    holder = ground arith;
    action = ground arith;
    resource = ground arith;
    current = (is_past_iff c.expires_at now).0 (ground arith);
    ceiling = ground arith;
    constraints = (first_violation_iff c.constraints now).0 (ground arith);
  }

  enough : IsAuthorized p c a r now → (evaluate p c a r now).granted ≡ true
  unfolding evaluate
  enough v = ground (
    arith,
    (is_past_iff c.expires_at now).1 v.current,
    (first_violation_iff c.constraints now).1 v.constraints,
  )

  granted_reason :
      ((evaluate p c a r now).granted ≡ true) ↔ ((evaluate p c a r now).denial_reason ≡ none)
  unfolding evaluate
  granted_reason = (λ e. ground arith, λ e. ground arith)

  -- The kernel grants a request exactly when the capability is for this principal and action,
  -- covers the resource, has not expired, stays under the principal's safety ceiling and has every
  -- time window and geofence met; and a decision has no reason for a denial exactly when it grants.
  pub evaluate-IsAuthorized :
      (((evaluate p c a r now).granted ≡ true) ↔ IsAuthorized p c a r now)
      × (((evaluate p c a r now).granted ≡ true) ↔ ((evaluate p c a r now).denial_reason ≡ none))
  evaluate-IsAuthorized = ((only, enough), granted_reason)
