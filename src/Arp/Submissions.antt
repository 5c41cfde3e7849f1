-- ===== src/Arp/Submissions.antt =====
-- What submissions to arp-broker/src/bin/main.rs keep, one after the other.
use sovereign_stack.Base.{
  ◌≡◌, ◌≢◌, ◌⊎◌, inl, inr, refl, sym, ap, subst, ◌∙◌, Bool-cases, true, Option, Option-cases, none,
  some, List, [], ◌∷◌, ◌++◌, Text, Text_discrete, eqb_iff, Dict, lookup, insert, lookup-insert_same,
  lookup-insert_other, All, All-append,
}
use sovereign_stack.Shared.Merkle.{Hashing}
use sovereign_stack.Arp.Broker.{
  ActionReceipt, BrokerState, Canonical, last?, or_default, ids_of, resolve, list_agent_receipts,
  store, hash, last_matches, and_get, check, submit_receipt,
}
use sovereign_stack.Arp.Chain.{Follows}

abbrev pub Resolves : Dict Text ActionReceipt → Text → Type 0
Resolves m i = (r : ActionReceipt) × (lookup Text_discrete i m ≡ some r)

-- A fresh id changes nothing for ids that resolve.
fresh_other :
    (m : Dict Text ActionReceipt) (k i : Text)
    → lookup Text_discrete k m ≡ none
    → Resolves m i
    → k ≢ i
fresh_other m k i fresh (r, e) same = cc (fresh, e, ap (λ t. lookup Text_discrete t m) same)

Resolves-insert :
    (m : Dict Text ActionReceipt) (r : ActionReceipt) (ids : List Text)
    → lookup Text_discrete r.receipt_id m ≡ none
    → All (Resolves m) ids
    → All (Resolves (insert Text_discrete r.receipt_id r m)) ids
Resolves-insert m r [] fresh h = tt
Resolves-insert m r (i ∷ ids) fresh h = (
  (
    h.0.0,
    lookup-insert_other Text_discrete r.receipt_id i r m (fresh_other m r.receipt_id i fresh h.0)
        ∙ h.0.1,
  ),
  Resolves-insert m r ids fresh h.1,
)

resolve_step :
    (m : Dict Text ActionReceipt) (i : Text) (ids : List Text) (r : ActionReceipt)
    → lookup Text_discrete i m ≡ some r
    → resolve m (i ∷ ids) ≡ r ∷ resolve m ids
unfolding resolve
resolve_step m i ids r e = rw (resolve, e) refl

resolve-insert :
    (m : Dict Text ActionReceipt) (r : ActionReceipt) (ids : List Text)
    → lookup Text_discrete r.receipt_id m ≡ none
    → All (Resolves m) ids
    → resolve (insert Text_discrete r.receipt_id r m) ids ≡ resolve m ids
resolve-insert m r [] fresh h = unfold resolve in refl
resolve-insert m r (i ∷ ids) fresh h =
    let other =
      lookup-insert_other Text_discrete r.receipt_id i r m
        (fresh_other m r.receipt_id i fresh h.0) in
    resolve_step (insert Text_discrete r.receipt_id r m) i ids h.0.0 (other ∙ h.0.1)
    ∙ ap (λ t. h.0.0 ∷ t) (resolve-insert m r ids fresh h.1)
    ∙ sym (resolve_step m i ids h.0.0 h.0.1)

resolve-append :
    (m : Dict Text ActionReceipt) (ids : List Text) (i : Text) (r : ActionReceipt)
    → lookup Text_discrete i m ≡ some r
    → resolve m (ids ++ (i ∷ [])) ≡ resolve m ids ++ (r ∷ [])
unfolding resolve
resolve-append m [] i r e = rw (resolve, e) refl
resolve-append m (j ∷ ids) i r e = elim (Option-cases (lookup Text_discrete j m)) [
  | inl absent ↦ rw (resolve, absent) (resolve-append m ids i r e)
  | inr (q, found) ↦ rw (resolve, found) (ap (λ t. q ∷ t) (resolve-append m ids i r e))
]

-- The last id stands for the last receipt.
resolve-last :
    (m : Dict Text ActionReceipt) (ids : List Text)
    → All (Resolves m) ids
    → ((last? ids ≡ none) × (last? (resolve m ids) ≡ none))
      ⊎ ((i : Text) × (r : ActionReceipt) × (last? ids ≡ some i)
          × (lookup Text_discrete i m ≡ some r)
          × (last? (resolve m ids) ≡ some r))
resolve-last m [] h = inl (refl, unfold resolve in refl)
resolve-last m (i ∷ []) h =
    inr (i, h.0.0, refl, h.0.1, ap last? (resolve_step m i [] h.0.0 h.0.1) ∙ unfold resolve in refl)
resolve-last m (i ∷ j ∷ ids) h =
    let second = resolve_step m j ids h.1.0.0 h.1.0.1 in
    let e : last? (resolve m (i ∷ j ∷ ids)) ≡ last? (resolve m (j ∷ ids)) =
      ap last? (resolve_step m i (j ∷ ids) h.0.0 h.0.1)
      ∙ ap (λ t. last? (h.0.0 ∷ t)) second
      ∙ ap last? (sym second) in
    rw e (resolve-last m (j ∷ ids) h.1)

module _ (h : Hashing) (json : Canonical → Text) where
  -- A receipt that starts its agent's chain anew, or names the hash of the one before it.
  abbrev pub Continues : Option ActionReceipt → ActionReceipt → Type 0
  Continues none r = r.previous_hash ≡ none
  Continues (some prev) r = (r.previous_hash ≡ none) ⊎ Follows h json prev r

  abbrev pub IsLinkedFrom : Option ActionReceipt → List ActionReceipt → Type 0
  IsLinkedFrom prev [] = Unit
  IsLinkedFrom prev (r ∷ rs) = Continues prev r × IsLinkedFrom (some r) rs

  -- Every id resolves, and each receipt of an agent continues the one before it.
  pub record IsConsistent (s : BrokerState) : Type 0 where
    pub resolved : (a : Text) → All (Resolves s.receipts) (ids_of s a)
    pub linked : (a : Text) → IsLinkedFrom none (list_agent_receipts s a)

  last_or : Option ActionReceipt → List ActionReceipt → Option ActionReceipt
  last_or p [] = p
  last_or p (x ∷ xs) = last_or (some x) xs

  last?-cons : (x : ActionReceipt) (xs : List ActionReceipt) → last? (x ∷ xs) ≡ last_or (some x) xs
  unfolding last_or
  last?-cons x [] = refl
  last?-cons x (y ∷ xs) = last?-cons y xs

  last?-or : (xs : List ActionReceipt) → last? xs ≡ last_or none xs
  unfolding last_or
  last?-or [] = refl
  last?-or (x ∷ xs) = last?-cons x xs

  IsLinkedFrom-append :
      (p : Option ActionReceipt) (xs : List ActionReceipt) (r : ActionReceipt)
      → IsLinkedFrom p xs
      → Continues (last_or p xs) r
      → IsLinkedFrom p (xs ++ (r ∷ []))
  unfolding last_or
  IsLinkedFrom-append p [] r l c = (c, tt)
  IsLinkedFrom-append p (x ∷ xs) r l c = (l.0, IsLinkedFrom-append (some x) xs r l.1 c)

  anew : (o : Option ActionReceipt) (r : ActionReceipt) → r.previous_hash ≡ none → Continues o r
  anew none r e = e
  anew (some prev) r e = inl e

  link :
      (prev r : ActionReceipt) (p : Text)
      → r.previous_hash ≡ some p
      → last_matches h json p (some prev) ≡ true
      → Continues (some prev) r
  link prev r p e m = inr (e ∙ ap some (sym ((eqb_iff Text_discrete (hash h json prev) p).0 m)))

  pub check_named :
      (s : BrokerState) (r : ActionReceipt) (p : Text)
      → r.previous_hash ≡ some p
      → check h json s r
        ≡ last_matches h json p (and_get h json s (last? (ids_of s r.principal.agent_id)))
  unfolding check
  check_named s r p e =
      ap
        (λ o. elim o [
          | none ↦ true
          | some q ↦
              last_matches h json q (and_get h json s (last? (ids_of s r.principal.agent_id)))
        ])
        e

  -- A link that is accepted continues the agent's chain.
  check-Continues :
      (s : BrokerState) (r : ActionReceipt)
      → All (Resolves s.receipts) (ids_of s r.principal.agent_id)
      → check h json s r ≡ true
      → Continues (last? (list_agent_receipts s r.principal.agent_id)) r
  unfolding list_agent_receipts
  check-Continues s r ok_ids c = elim (Option-cases r.previous_hash) [
    | inl e ↦ anew _ r e
    | inr (p, e) ↦
        let c' = sym (check_named s r p e) ∙ c in
        elim (resolve-last s.receipts (ids_of s r.principal.agent_id) ok_ids) [
          | inl (empty, empty') ↦
              cc (sym c' ∙ ap (λ o. last_matches h json p (and_get h json s o)) empty)
          | inr (i, prev, last_id, found, last) ↦
              subst (λ o. Continues o r) (sym last)
                (link prev r p e (
                  sym (
                    ap (λ o. last_matches h json p (and_get h json s o)) last_id
                    ∙ ap (last_matches h json p) found)
                  ∙ c'))
        ]
  ]

  pub ids_of-store_same :
      (s : BrokerState) (r : ActionReceipt)
      → ids_of (store s r) r.principal.agent_id
        ≡ ids_of s r.principal.agent_id ++ (r.receipt_id ∷ [])
  unfolding store ids_of
  ids_of-store_same s r =
      ap or_default (lookup-insert_same Text_discrete r.principal.agent_id _ s.by_agent)

  ids_of-store_other :
      (s : BrokerState) (r : ActionReceipt) (a : Text)
      → r.principal.agent_id ≢ a
      → ids_of (store s r) a ≡ ids_of s a
  unfolding store ids_of
  ids_of-store_other s r a n =
      ap or_default (lookup-insert_other Text_discrete r.principal.agent_id a _ s.by_agent n)

  module _ (s : BrokerState) (r : ActionReceipt) (v : IsConsistent s)
      (fresh : lookup Text_discrete r.receipt_id s.receipts ≡ none) where
    abbrev pub mine : Text
    mine = r.principal.agent_id

    abbrev grown : Dict Text ActionReceipt
    grown = insert Text_discrete r.receipt_id r s.receipts

    stored_ids : All (Resolves grown) (ids_of s mine ++ (r.receipt_id ∷ []))
    stored_ids =
        All-append (Resolves grown) (ids_of s mine) (r.receipt_id ∷ [])
          (Resolves-insert s.receipts r (ids_of s mine) fresh (v.resolved mine))
          ((r, lookup-insert_same Text_discrete r.receipt_id r s.receipts), tt)

    resolved_after : (a : Text) → All (Resolves grown) (ids_of (store s r) a)
    resolved_after a = elim (Text_discrete mine a) [
      | yes e ↦
          subst (λ b. All (Resolves grown) (ids_of (store s r) b)) e
            (subst (All (Resolves grown)) (sym (ids_of-store_same s r)) stored_ids)
      | no n ↦
          subst (All (Resolves grown)) (sym (ids_of-store_other s r a n))
            (Resolves-insert s.receipts r (ids_of s a) fresh (v.resolved a))
    ]

    pub list-store_same :
        list_agent_receipts (store s r) mine ≡ list_agent_receipts s mine ++ (r ∷ [])
    unfolding list_agent_receipts store
    list-store_same =
        ap (resolve grown) (ids_of-store_same s r)
        ∙ resolve-append grown (ids_of s mine) r.receipt_id r
            (lookup-insert_same Text_discrete r.receipt_id r s.receipts)
        ∙ ap (λ t. t ++ (r ∷ []))
            (resolve-insert s.receipts r (ids_of s mine) fresh (v.resolved mine))

    list-store_other :
        (a : Text) → mine ≢ a → list_agent_receipts (store s r) a ≡ list_agent_receipts s a
    unfolding list_agent_receipts store
    list-store_other a n =
        ap (resolve grown) (ids_of-store_other s r a n)
        ∙ resolve-insert s.receipts r (ids_of s a) fresh (v.resolved a)

    linked_after :
        Continues (last? (list_agent_receipts s mine)) r
        → (a : Text) → IsLinkedFrom none (list_agent_receipts (store s r) a)
    linked_after c a = elim (Text_discrete mine a) [
      | yes e ↦
          subst (λ b. IsLinkedFrom none (list_agent_receipts (store s r) b)) e
            (subst (IsLinkedFrom none) (sym list-store_same) (
              IsLinkedFrom-append none (list_agent_receipts s mine) r (v.linked mine)
                (subst (λ o. Continues o r) (last?-or (list_agent_receipts s mine)) c)))
      | no n ↦ subst (IsLinkedFrom none) (sym (list-store_other a n)) (v.linked a)
    ]

    pub store-IsConsistent : check h json s r ≡ true → IsConsistent (store s r)
    unfolding store
    store-IsConsistent c = record {
      resolved = resolved_after;
      linked = linked_after (check-Continues s r (v.resolved mine) c);
    }

  -- A submission with a fresh receipt id keeps the store consistent, accepted or not: every
  -- receipt of an agent starts anew or names the hash of the one before it.
  pub submit_receipt-IsConsistent :
      (s : BrokerState) (r : ActionReceipt)
      → IsConsistent s
      → lookup Text_discrete r.receipt_id s.receipts ≡ none
      → IsConsistent (submit_receipt h json s r).0
  unfolding submit_receipt
  submit_receipt-IsConsistent s r v fresh = elim (Bool-cases (check h json s r)) [
    | inl accepted ↦ rw (submit_receipt, accepted) (store-IsConsistent s r v fresh accepted)
    | inr refused ↦ rw (submit_receipt, refused) v
  ]
