-- ===== src/Dip/Decisions.antt =====
-- Where dip/src/router.rs sends an envelope, and that it sends each message once.
use sovereign_stack.Base.{
  ℕ, ◌≡◌, ◌↔◌, ◌⊎◌, refl, inl, inr, Bool, true, false, ◌||◌, Bool-cases, Text, Text_discrete, eqb,
  eqb_iff, contains, contains-add_grows, contains-add_self, if◌then◌else◌, Result, ok, err, arith,
}
use sovereign_stack.Dip.Router.{
  DipNetwork, DipNetwork_discrete, DipEnvelope, DipRouter, DipError, RouteDecision, deliver_local,
  forward, drop_duplicate, drop_expired, no_adapter, did_text, is_expired, choose, register_adapter,
  route,
}

-- Not seen before and not expired.
pub record IsFresh (now : ℕ) (r : DipRouter) (e : DipEnvelope) : Type 0 where
  pub unseen : contains Text_discrete e.message_id r.seen ≡ false
  pub live : is_expired now e ≡ false

abbrev pub IsForUs : DipRouter → DipEnvelope → Type 0
IsForUs r e = (did_text e.destination.did ≡ r.local_did) ⊎ (e.destination.address ≡ r.local_did)

IsForUs-iff :
    (r : DipRouter) (e : DipEnvelope)
    → ((eqb Text_discrete (did_text e.destination.did) r.local_did
          || eqb Text_discrete e.destination.address r.local_did)
        ≡ true)
      ↔ IsForUs r e
IsForUs-iff r e = (
  λ h. elim (Bool-cases (eqb Text_discrete (did_text e.destination.did) r.local_did)) [
    | inl by_did ↦ inl ((eqb_iff Text_discrete _ _).0 by_did)
    | inr other ↦ inr ((eqb_iff Text_discrete _ _).0 (ground (arith, other, h)))
  ],
  λ v. elim v [
    | inl by_did ↦ ground (arith, (eqb_iff Text_discrete _ _).1 by_did)
    | inr by_address ↦ ground (arith, (eqb_iff Text_discrete _ _).1 by_address)
  ],
)

-- The four outcomes as tests.
abbrev gate : (seen old ours adapted : Bool) → Text → DipNetwork → Result DipError RouteDecision
gate seen old ours adapted id n =
    if seen
    then ok (drop_duplicate id)
    else if old
    then ok drop_expired
    else if ours
    then ok deliver_local
    else if adapted
    then ok (forward n)
    else err (no_adapter n)

route-gate :
    (now : ℕ) (r : DipRouter) (e : DipEnvelope)
    → (route now r e).1
      ≡ gate
          (contains Text_discrete e.message_id r.seen)
          (is_expired now e)
          (eqb Text_discrete (did_text e.destination.did) r.local_did
            || eqb Text_discrete e.destination.address r.local_did)
          (contains DipNetwork_discrete e.destination.network r.registered_adapters)
          e.message_id
          e.destination.network
unfolding route choose
route-gate now r e = ground arith

gate_local :
    (s o u a : Bool) (id : Text) (n : DipNetwork)
    → (gate s o u a id n ≡ ok deliver_local) ↔ ((s ≡ false) × (o ≡ false) × (u ≡ true))
gate_local s o u a id n = (λ h. ground arith, λ v. ground arith)

gate_forward :
    (s o u a : Bool) (id : Text) (n m : DipNetwork)
    → (gate s o u a id n ≡ ok (forward m))
      ↔ ((s ≡ false) × (o ≡ false) × (u ≡ false) × (a ≡ true) × (n ≡ m))
gate_forward s o u a id n m = (λ h. ground arith, λ v. ground arith)

gate_error :
    (s o u a : Bool) (id : Text) (n m : DipNetwork)
    → (gate s o u a id n ≡ err (no_adapter m))
      ↔ ((s ≡ false) × (o ≡ false) × (u ≡ false) × (a ≡ false) × (n ≡ m))
gate_error s o u a id n m = (λ h. ground arith, λ v. ground arith)

false_iff : (b : Bool) {P : Type 0} → ((b ≡ true) ↔ P) → (b ≡ false) ↔ (¬ P)
false_iff true (f, g) = (λ e. cc, λ no_p. absurd (no_p (f refl)))
false_iff false (f, g) = (λ e p. cc (g p), λ no_p. refl)

module _ (now : ℕ) (r : DipRouter) (e : DipEnvelope) where
  -- A fresh envelope is delivered here exactly if it names this node by DID or address; any other is
  -- forwarded to the adapter of its destination's network exactly if that is registered, and
  -- refused for the lack of an adapter exactly if it is not. What is not fresh gets none of these.
  pub route_iff :
      (((route now r e).1 ≡ ok deliver_local) ↔ (IsFresh now r e × IsForUs r e))
      × ((n : DipNetwork)
          → ((route now r e).1 ≡ ok (forward n)) ↔ (
              IsFresh now r e
              × (¬ IsForUs r e)
              × (contains DipNetwork_discrete e.destination.network r.registered_adapters ≡ true)
              × (e.destination.network ≡ n)))
      × ((n : DipNetwork)
          → ((route now r e).1 ≡ err (no_adapter n)) ↔ (
              IsFresh now r e
              × (¬ IsForUs r e)
              × (contains DipNetwork_discrete e.destination.network r.registered_adapters ≡ false)
              × (e.destination.network ≡ n)))
  route_iff = rw (route-gate now r e) (
    (
      λ h.
          let (s, o, u) = (gate_local _ _ _ _ _ _).0 h in
          (record { unseen = s; live = o }, (IsForUs-iff r e).0 u),
      λ (v, u). (gate_local _ _ _ _ _ _).1 (v.unseen, v.live, (IsForUs-iff r e).1 u),
    ),
    (λ n. (
      λ h.
          let (s, o, u, a, m) = (gate_forward _ _ _ _ _ _ n).0 h in
          (record { unseen = s; live = o }, (false_iff _ (IsForUs-iff r e)).0 u, a, m),
      λ (v, u, a, m).
          (gate_forward _ _ _ _ _ _ n).1
            (v.unseen, v.live, (false_iff _ (IsForUs-iff r e)).1 u, a, m),
    )),
    (λ n. (
      λ h.
          let (s, o, u, a, m) = (gate_error _ _ _ _ _ _ n).0 h in
          (record { unseen = s; live = o }, (false_iff _ (IsForUs-iff r e)).0 u, a, m),
      λ (v, u, a, m).
          (gate_error _ _ _ _ _ _ n).1
            (v.unseen, v.live, (false_iff _ (IsForUs-iff r e)).1 u, a, m),
    )),
  )

-- What happens to a router.
pub data Step (r : DipRouter) : DipRouter → Type 0 where
  routed : (now : ℕ) (e : DipEnvelope) → Step r (route now r e).0
  registered : (n : DipNetwork) → Step r (register_adapter r n)

pub data Reach (r : DipRouter) : DipRouter → Type 0 where
  here : Reach r r
  next : {s t : DipRouter} → Reach r s → Step s t → Reach r t

abbrev has_seen : DipRouter → Text → Bool
has_seen r id = contains Text_discrete id r.seen

has_seen-route :
    (now : ℕ) (r : DipRouter) (e : DipEnvelope) (id : Text)
    → (has_seen r id ≡ true → has_seen (route now r e).0 id ≡ true)
      × (IsFresh now r e → has_seen (route now r e).0 e.message_id ≡ true)
unfolding route
has_seen-route now r e id = (
  λ h. ground (arith, contains-add_grows Text_discrete e.message_id id r.seen h),
  λ v. ground (arith, v.unseen, v.live, contains-add_self Text_discrete e.message_id r.seen),
)

Reach-keep : {r s : DipRouter} (id : Text) → Reach r s → has_seen r id ≡ true → has_seen s id ≡ true
unfolding register_adapter
Reach-keep id here h = h
Reach-keep id (next p (routed now e)) h = (has_seen-route now _ e id).0 (Reach-keep id p h)
Reach-keep id (next p (registered n)) h = Reach-keep id p h

-- A message is routed at most once: after an envelope that was fresh, whatever became of it, every
-- envelope with the same id is dropped as a duplicate and changes nothing. That holds even when no
-- adapter was there for the first one and one has been registered since.
pub routed_once :
    (now : ℕ) (r : DipRouter) (e : DipEnvelope)
    → IsFresh now r e
    → {s : DipRouter} → Reach (route now r e).0 s
    → (time : ℕ) (again : DipEnvelope) → again.message_id ≡ e.message_id
    → route time s again ≡ (s, ok (drop_duplicate e.message_id))
unfolding route
routed_once now r e fresh {s} later time again same =
    let seen = Reach-keep e.message_id later ((has_seen-route now r e e.message_id).1 fresh) in
    rw (same, seen) refl
