-- ===== src/Arp/Examples.antt =====
-- Chains of receipts at concrete values: the JSON text is the id, and a text is its own hash.
use sovereign_stack.Base.{
  ◌≡◌, ◌↔◌, refl, false, none, some, Option, ℕ, [], ◌∷◌, Text, Text_discrete, text, lookup, insert,
}
use sovereign_stack.Shared.Merkle.{Hashing}
use sovereign_stack.Arp.Broker.{
  PrincipalKind, ReceiptKind, ActionReceipt, BrokerState, Canonical, canonical, valid, broken,
  new_broker, ids_of, resolve, list_agent_receipts, store, hash, chain_valid, check, submit_receipt,
  verify_from, verify_chain,
}
use sovereign_stack.Arp.Chain.{IsChain, BreaksAt, verify_chain_iff}
use sovereign_stack.Arp.Submissions.{IsConsistent, submit_receipt-IsConsistent}
use sovereign_stack.Arp.Race.{Reach, idle, race_forks}

abbrev plain : Hashing
plain = record { sha256 = λ t. t; hex = λ t. t }

abbrev json : Canonical → Text
json c = c.action.target

abbrev receipt : (id target : Text) → Option Text → ActionReceipt
receipt id target previous = record {
  receipt_id = id;
  kind = ReceiptKind.compute;
  kind_ext = none;
  principal = record {
    principal_id = text "did:p";
    kind = PrincipalKind.agent;
    agent_id = text "did:a";
    session_id = none;
    agent_tier = none;
    capabilities = [];
  };
  action = record { kind = text "run"; target = target; outcome = text "success"; params = [] };
  evidence_ids = [];
  witness_attestations = [];
  throne_evaluations = [];
  consensus_receipt = none;
  physical_attestation = none;
  zangbeto_anchor = none;
  nostr_event_id = none;
  timestamp = 5;
  execution_id = none;
  previous_hash = previous;
  signature = [];
}

abbrev first : ActionReceipt
first = receipt (text "1") (text "a") none

abbrev second : ActionReceipt
second = receipt (text "11") (text "aa") (some (text "a"))

abbrev rival : ActionReceipt
rival = receipt (text "111") (text "aaa") (some (text "a"))

verify_chain_iff_example :
    (((t : Option Text) × (verify_chain plain json (first ∷ second ∷ []) ≡ valid 2 t))
      ↔ IsChain plain json (first ∷ second ∷ []))
    × ((k : ℕ) (e : Text) (g : Option Text)
        → verify_chain plain json (first ∷ second ∷ []) ≡ broken k e g
        → BreaksAt plain json (first ∷ second ∷ []) k)
verify_chain_iff_example = verify_chain_iff plain json (first ∷ second ∷ [])

broken_second : verify_chain plain json (second ∷ first ∷ []) ≡ broken 1 (text "aa") none
unfolding verify_chain verify_from chain_valid hash canonical
broken_second = refl

new-IsConsistent : IsConsistent plain json new_broker
unfolding ids_of list_agent_receipts resolve lookup
new-IsConsistent = record { resolved = λ a. tt; linked = λ a. tt }

submit_receipt-IsConsistent_example :
    IsConsistent plain json (submit_receipt plain json new_broker first).0
unfolding lookup
submit_receipt-IsConsistent_example =
    submit_receipt-IsConsistent plain json new_broker first new-IsConsistent refl

abbrev one_stored : BrokerState
one_stored = (submit_receipt plain json new_broker first).0

one-IsConsistent : IsConsistent plain json one_stored
unfolding lookup
one-IsConsistent = submit_receipt-IsConsistent plain json new_broker first new-IsConsistent refl

abbrev two_stored : BrokerState
two_stored = (submit_receipt plain json one_stored second).0

race_forks_example :
    (check plain json (store one_stored second) rival ≡ false)
    × Reach plain json (idle one_stored) (idle (store (store one_stored second) rival))
    × (¬ IsConsistent plain json (store (store one_stored second) rival))
unfolding submit_receipt store check lookup insert ids_of hash canonical Text_discrete
race_forks_example =
    race_forks plain json one_stored second rival (text "a") one-IsConsistent refl refl refl
      (λ e. cc) refl (λ e. cc) refl refl
