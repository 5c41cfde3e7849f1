-- ===== src/Arp/Overwriting.antt =====
-- Receipts with an id that the store of arp-broker/src/bin/main.rs has already.
use mathlib.Core.Option.{some_inj}
use sovereign_stack.Base.{
  ◌≡◌, ◌≢◌, refl, sym, ◌∙◌, true, none, some, Text, Text_discrete, lookup-insert_same,
  lookup-insert_other,
}
use sovereign_stack.Shared.Merkle.{Hashing}
use sovereign_stack.Arp.Broker.{
  ActionReceipt, BrokerState, Canonical, created, get_receipt, store, hash, check, submit_receipt,
}
use sovereign_stack.Arp.Chain.{Follows}

module _ (h : Hashing) (json : Canonical → Text) where
  unchecked :
      (s : BrokerState) (r : ActionReceipt) → r.previous_hash ≡ none → check h json s r ≡ true
  unfolding check
  unchecked s r e = rw (check, e) refl

  -- A receipt with the id of a stored one and no previous hash is accepted and takes its place; a
  -- receipt that named the hash of the old one then follows nothing in the store.
  overwritten :
      (s : BrokerState) (old later r : ActionReceipt)
      → get_receipt s old.receipt_id ≡ some old
      → get_receipt s later.receipt_id ≡ some later
      → Follows h json old later
      → old.receipt_id ≢ later.receipt_id
      → r.receipt_id ≡ old.receipt_id
      → r.previous_hash ≡ none
      → hash h json r ≢ hash h json old
      → ((submit_receipt h json s r).1 ≡ created r.receipt_id (hash h json r) r.principal.agent_id)
        × (get_receipt (submit_receipt h json s r).0 old.receipt_id ≡ some r)
        × (get_receipt (submit_receipt h json s r).0 later.receipt_id ≡ some later)
        × (¬ Follows h json r later)
  unfolding submit_receipt get_receipt store
  overwritten s old later r there there' f n same anew other =
      let c = unchecked s r anew in
      (
        rw (submit_receipt, c) refl,
        rw (submit_receipt, c)
            (rw (sym same) (lookup-insert_same Text_discrete r.receipt_id r s.receipts)),
        rw (submit_receipt, c)
            (lookup-insert_other Text_discrete r.receipt_id later.receipt_id r s.receipts
                (λ e. n (sym same ∙ e))
              ∙ there'),
        λ g. other (some_inj.0 (sym g ∙ f)),
      )
