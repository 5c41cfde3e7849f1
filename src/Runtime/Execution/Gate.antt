-- ===== src/Runtime/Execution/Gate.antt =====
-- What the chain of sovereign-runtime/src/execution.rs and chain.rs lets through, and the receipt
-- that each way out of it leaves.
use sovereign_stack.Base.{
  ℕ, ◌≡◌, ◌≢◌, ◌↔◌, refl, sym, ap, ◌∙◌, Bool-cases, inl, inr, Option, none, some, [], Text, Result,
  ok, err, Option-cases, ◌⊎◌,
}
use sovereign_stack.Runtime.Principal.{Principal, RuntimeError, validate, IsComplete, validate_iff}
use sovereign_stack.Runtime.Capability.{Capability, CapabilityAction, evaluate}
use sovereign_stack.Runtime.Capability.Authorization.{IsAuthorized, evaluate-IsAuthorized}
use sovereign_stack.Runtime.Receipt.{
  ActionReceipt, Hashes, Failure, denied, new, denied_receipt, invalid,
}
use sovereign_stack.Runtime.Execution.{
  ExecutionContext, refusal, begin, complete, fail, run_sovereign,
}

-- An operation without a capability needs only a complete principal.
abbrev pub Allows : Principal → Option Capability → CapabilityAction → Text → ℕ → Type 0
Allows p none a r now = Unit
Allows p (some c) a r now = IsAuthorized p c a r now

abbrev pub IsAdmitted : Principal → Option Capability → CapabilityAction → Text → ℕ → Type 0
IsAdmitted p c a r now = IsComplete p × Allows p c a r now

validated_or_not :
    (m : Result RuntimeError (Unit {0})) → (m ≡ ok tt) ⊎ ((e : RuntimeError) × (m ≡ err e))
validated_or_not (ok tt) = inl refl
validated_or_not (err e) = inr (e, refl)

refusal_iff :
    (p : Principal) (c : Option Capability) (a : CapabilityAction) (r : Text) (now : ℕ)
    → (refusal p c a r now ≡ none) ↔ Allows p c a r now
unfolding refusal
refusal_iff p none a r now = (λ e. tt, λ u. refl)
refusal_iff p (some c) a r now = elim (Bool-cases (evaluate p c a r now).granted) [
  | inl given ↦ rw (given) (λ e. (evaluate-IsAuthorized p c a r now).0.0 given, λ v. refl)
  | inr refused ↦
      rw (refused) (λ e. cc, λ v. cc (refused, (evaluate-IsAuthorized p c a r now).0.1 v))
]

module _ (h : Hashes) (uuid : Text) (p : Principal) (c : Option Capability) (a : CapabilityAction)
    (r params : Text) (now : ℕ) where
  abbrev pub started : ExecutionContext
  started = record {
    principal = p;
    capability = c;
    action = a;
    resource = r;
    params = params;
    evidence = [];
    started_at = now;
  }

  admitted : IsAdmitted p c a r now → begin h uuid p c a r params now ≡ ok started
  unfolding begin
  admitted (whole, allowed) =
      rw (begin, (validate_iff p).1 whole, (refusal_iff p c a r now).1 allowed) refl

  turned_away :
      ¬ IsAdmitted p c a r now
      → (reason : Failure) × (begin h uuid p c a r params now
          ≡ err (denied_receipt h uuid p a r reason now))
  unfolding begin
  turned_away closed = elim (validated_or_not (validate p)) [
    | inr (e, eq) ↦ (invalid e, rw (begin, eq) refl)
    | inl valid ↦ elim (Option-cases (refusal p c a r now)) [
      | inr (reason, eq) ↦ (reason, rw (begin, valid, eq) refl)
      | inl none_given ↦
          absurd (closed ((validate_iff p).0 valid, (refusal_iff p c a r now).0 none_given))
    ]
  ]

  open_or_closed : IsAdmitted p c a r now ⊎ ¬ IsAdmitted p c a r now
  open_or_closed = elim (validated_or_not (validate p)) [
    | inr (e, eq) ↦ inr (λ v. cc (eq, (validate_iff p).1 v.0))
    | inl valid ↦ elim (Option-cases (refusal p c a r now)) [
      | inr (reason, eq) ↦ inr (λ v. cc (eq, (refusal_iff p c a r now).1 v.1))
      | inl none_given ↦ inl ((validate_iff p).0 valid, (refusal_iff p c a r now).0 none_given)
    ]
  ]

  -- The receipt that an admitted run leaves.
  abbrev pub ending : ExecutionContext × Result Text Text → ActionReceipt
  ending (ctx, ok result) = complete h uuid ctx result now
  ending (ctx, err reason) = fail h uuid ctx reason now

  -- For a request that is admitted, the function runs on the context that `begin` makes, and the
  -- receipt is that of its ending; for any other, the receipt is a denial that does not depend on
  -- the function.
  pub run_sovereign_cases :
      (execute_fn : ExecutionContext → ExecutionContext × Result Text Text)
      → (IsAdmitted p c a r now
          × (run_sovereign h uuid p c a r params now execute_fn ≡ ending (execute_fn started)))
        ⊎ (¬ IsAdmitted p c a r now
            × (reason : Failure) × (run_sovereign h uuid p c a r params now execute_fn
                ≡ denied_receipt h uuid p a r reason now))
  unfolding run_sovereign
  run_sovereign_cases execute_fn = elim open_or_closed [
    | inl v ↦ inl (v, rw (run_sovereign, admitted v) (split (execute_fn started)))
    | inr closed ↦
        let (reason, eq) = turned_away closed in inr (closed, reason, rw (run_sovereign, eq) refl)
  ]
    where
      split :
          (x : ExecutionContext × Result Text Text)
          → elim (x.1) [
            | ok result ↦ complete h uuid (x.0) result now
            | err e ↦ fail h uuid (x.0) e now
          ]
            ≡ ending x
      split (ctx, ok v) = refl
      split (ctx, err e) = refl

  ending_conclusive : (x : ExecutionContext × Result Text Text) → (ending x).outcome ≢ denied
  unfolding complete fail new
  ending_conclusive (ctx, ok v) e = cc
  ending_conclusive (ctx, err v) e = cc

  denied_outcome : (reason : Failure) → (denied_receipt h uuid p a r reason now).outcome ≡ denied
  unfolding denied_receipt new
  denied_outcome reason = refl

  -- The receipt of a run reports a denial exactly when the principal is not complete or the
  -- capability that is given does not authorise the action, whatever the function does.
  pub run_sovereign-denied :
      (execute_fn : ExecutionContext → ExecutionContext × Result Text Text)
      → ((run_sovereign h uuid p c a r params now execute_fn).outcome ≡ denied)
        ↔ (¬ IsAdmitted p c a r now)
  run_sovereign-denied execute_fn = elim (run_sovereign_cases execute_fn) [
    | inl (v, eq) ↦ (
      λ e. absurd (ending_conclusive (execute_fn started) (ap (λ x. x.outcome) (sym eq) ∙ e)),
      λ closed. absurd (closed v),
    )
    | inr (closed, reason, eq) ↦ (λ e. closed, λ c'. ap (λ x. x.outcome) eq ∙ denied_outcome reason)
  ]
