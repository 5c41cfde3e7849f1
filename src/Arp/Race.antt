-- ===== src/Arp/Race.antt =====
-- Submissions to arp-broker/src/bin/main.rs at the same time. The link is compared under a read lock
-- that is given up before the tables are written, so other submissions can come in between.
use mathlib.Core.Option.{some_inj}
use sovereign_stack.Base.{
  ◌≡◌, ◌≢◌, inl, inr, refl, sym, ap, subst, ◌∙◌, Bool-cases, true, false, Option, none, some, List,
  [], ◌∷◌, ◌++◌, Text, Text_discrete, eqb, eqb_iff, lookup, lookup-insert_same, lookup-insert_other,
}
use sovereign_stack.Shared.Merkle.{Hashing}
use sovereign_stack.Arp.Broker.{
  ActionReceipt, BrokerState, Canonical, last?, ids_of, list_agent_receipts, store, hash,
  last_matches, and_get, check,
}
use sovereign_stack.Arp.Submissions.{
  Continues, IsLinkedFrom, IsConsistent, list-store_same, store-IsConsistent, ids_of-store_same,
  check_named,
}

-- The tables, and the receipts that are checked and not yet stored.
pub record Server : Type 0 where
  pub broker : BrokerState
  pub pending : List ActionReceipt

abbrev pub idle : BrokerState → Server
idle s = record { broker = s; pending = [] }

eqb_ne : {A : Type 0} (d : Discrete A) (a b : A) → a ≢ b → eqb d a b ≡ false
eqb_ne d a b n = elim (Bool-cases (eqb d a b)) [
  | inl e ↦ absurd (n ((eqb_iff d a b).0 e))
  | inr e ↦ e
]

last?-append : (xs : List Text) (x : Text) → last? (xs ++ (x ∷ [])) ≡ some x
last?-append [] x = refl
last?-append (y ∷ []) x = refl
last?-append (y ∷ z ∷ xs) x = last?-append (z ∷ xs) x

module _ (h : Hashing) (json : Canonical → Text) where
  -- One critical section of one submission.
  pub data Step (v w : Server) : Type 0 where
    accept :
        (r : ActionReceipt)
        → check h json v.broker r ≡ true
        → w ≡ record v { pending = r ∷ v.pending }
        → Step v w
    write :
        (before after : List ActionReceipt) (r : ActionReceipt)
        → v.pending ≡ before ++ (r ∷ after)
        → w ≡ record { broker = store v.broker r; pending = before ++ after }
        → Step v w

  pub data Reach (v : Server) : Server → Type 0 where
    here : Reach v v
    next : {u w : Server} → Reach v u → Step u w → Reach v w

  split_last :
      (p : Option ActionReceipt) (xs : List ActionReceipt) (r q : ActionReceipt)
      → IsLinkedFrom h json p ((xs ++ (r ∷ [])) ++ (q ∷ []))
      → Continues h json (some r) q
  split_last p [] r q l = l.1.0
  split_last p (x ∷ xs) r q l = split_last (some x) xs r q l.1

  module _ (s : BrokerState) (r q : ActionReceipt) (p : Text) (v : IsConsistent h json s)
      (same_agent : r.principal.agent_id ≡ q.principal.agent_id)
      (fresh_r : lookup Text_discrete r.receipt_id s.receipts ≡ none)
      (fresh_q : lookup Text_discrete q.receipt_id s.receipts ≡ none)
      (other_ids : r.receipt_id ≢ q.receipt_id) (named : q.previous_hash ≡ some p)
      (other_hash : hash h json r ≢ p) (check_r : check h json s r ≡ true) where
    after_r : IsConsistent h json (store s r)
    after_r = store-IsConsistent h json s r v fresh_r check_r

    fresh_later : lookup Text_discrete q.receipt_id (BrokerState.receipts (store s r)) ≡ none
    unfolding store
    fresh_later =
        lookup-insert_other Text_discrete r.receipt_id q.receipt_id r s.receipts other_ids ∙ fresh_q

    last_id : last? (ids_of (store s r) q.principal.agent_id) ≡ some r.receipt_id
    last_id =
        subst (λ a. last? (ids_of (store s r) a) ≡ some r.receipt_id) same_agent
          (ap last? (ids_of-store_same h json s r)
            ∙ last?-append (ids_of s r.principal.agent_id) r.receipt_id)

    -- Once the first is stored, the second is refused.
    refused_later : check h json (store s r) q ≡ false
    unfolding store
    refused_later =
        check_named h json (store s r) q p named
        ∙ ap (λ o. last_matches h json p (and_get h json (store s r) o)) last_id
        ∙ ap (last_matches h json p) (lookup-insert_same Text_discrete r.receipt_id r s.receipts)
        ∙ eqb_ne Text_discrete (hash h json r) p other_hash

    both_written :
        list_agent_receipts (store (store s r) q) q.principal.agent_id
        ≡ (list_agent_receipts s q.principal.agent_id ++ (r ∷ [])) ++ (q ∷ [])
    both_written =
        list-store_same h json (store s r) q after_r fresh_later
        ∙ ap (λ t. t ++ (q ∷ []))
            (subst (λ a. list_agent_receipts (store s r) a ≡ list_agent_receipts s a ++ (r ∷ []))
              same_agent (list-store_same h json s r v fresh_r))

    inconsistent : ¬ IsConsistent h json (store (store s r) q)
    inconsistent w =
        elim (split_last none (list_agent_receipts s q.principal.agent_id) r q
          (subst (IsLinkedFrom h json none) both_written (w.linked q.principal.agent_id))) [
            | inl e ↦ cc (named, e)
            | inr f ↦ other_hash (some_inj.0 (sym f ∙ named))
          ]

    -- Two submissions of an agent that name the same last receipt: the broker that takes them one
    -- after the other refuses the second, but when both are checked before either is stored both
    -- are taken, and the agent's chain is forked.
    pub race_forks :
        check h json s q ≡ true
        → (check h json (store s r) q ≡ false)
          × Reach (idle s) (idle (store (store s r) q))
          × (¬ IsConsistent h json (store (store s r) q))
    race_forks check_q = (
      refused_later,
      next
          (next (next (next here (accept r check_r refl)) (accept q check_q refl))
            (write (q ∷ []) [] r refl refl))
          (write [] [] q refl refl),
      inconsistent,
    )
