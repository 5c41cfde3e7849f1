-- ===== src/Pipeline/Broadcast.antt =====
-- What sovereign-pipeline/src/event_bus.rs announces, and in which order.
use sovereign_stack.Base.{
  ℕ, ◌+◌, ◌*◌, ◌%◌, ◌^◌, ◌≤◌, ◌≡◌, ◌≢◌, refl, inl, inr, true, false, Bool-cases, List, [], ◌∷◌,
  ◌++◌, Text, text, Text_discrete, eqb, eqb_iff, contains, add, ltb, ok, Succeeds, arith,
}
use sovereign_stack.Runtime.Identity.{validate_chain}
use sovereign_stack.Dip.Router.{
  DipNetwork, DipNetwork_discrete, DipAddress, DipEnvelope, DipRouter, forward, did_text,
  is_expired, choose, route, vantage_address,
}
use sovereign_stack.Dip.Envelope.{
  EnvelopeServices, Draft, DipKind, build_envelope, envelope_root, envelope_of,
}
use sovereign_stack.Dip.Sealed.{build_envelope_iff}
use sovereign_stack.Pipeline.Bus.{
  PipelineEvent, RoutedEvent, PipelineEventBus, Draw, Payloads, kind_label, event_receipt_id,
  to_payload, send, emit, emit_all,
}

eqb_other : (a b : Text) → a ≢ b → eqb Text_discrete a b ≡ false
eqb_other a b n = elim (Bool-cases (eqb Text_discrete a b)) [
  | inl e ↦ absurd (n ((eqb_iff Text_discrete a b).0 e))
  | inr e ↦ e
]

abbrev pub seeing : DipRouter → Text → DipRouter
seeing r id = record r { seen = add Text_discrete id r.seen }

-- An envelope that is neither seen, old nor for us, with an adapter for its network.
route_forward :
    (now : ℕ) (r : DipRouter) (e : DipEnvelope)
    → contains Text_discrete e.message_id r.seen ≡ false
    → is_expired now e ≡ false
    → did_text e.destination.did ≢ r.local_did
    → e.destination.address ≢ r.local_did
    → contains DipNetwork_discrete e.destination.network r.registered_adapters ≡ true
    → route now r e ≡ (seeing r e.message_id, ok (forward e.destination.network))
unfolding route choose
route_forward now r e unseen live by_did by_address adapter =
    let p = eqb_other _ _ by_did in
    let q = eqb_other _ _ by_address in rw (unseen, live, p, q, adapter) refl

module _ {F G V : Type 0} (s : EnvelopeServices V) (p : Payloads F G V) where
  -- A bus that can sign for a complete identity.
  pub record IsSigning (bus : PipelineEventBus) : Type 0 where
    pub identified : validate_chain bus.identity ≡ ok tt
    pub signs : (m : Text) → Succeeds (s.sign m bus.signing_key)

  abbrev pub id_of : Draw → Text
  id_of t = text "dip:" ++ t.uuid

  abbrev pub marked : PipelineEventBus → Draw → PipelineEventBus
  marked bus t = record bus { router = seeing bus.router (id_of t) }

  -- What is announced to an address.
  pub record IsSent (t : Draw) (kind id : Text) (to : DipAddress) (value : V) (r : RoutedEvent V)
      : Type 0 where
    pub event_kind : r.event_kind ≡ kind
    pub receipt_id : r.receipt_id ≡ id
    pub message_id : r.envelope.routed.message_id ≡ id_of t
    pub payload : r.envelope.payload ≡ value
    pub destination : r.envelope.routed.destination ≡ to
    pub decision : r.decision ≡ forward to.network

  pub send_ok :
      (t : Draw) (bus : PipelineEventBus) (kind id : Text) (destination : DipAddress) (payload : V)
      (ttl : ℕ)
      → IsSigning bus
      → contains Text_discrete (id_of t) bus.router.seen ≡ false
      → t.routed ≤ (t.built + ttl * 1000) % 2 ^ 64
      → did_text destination.did ≢ bus.router.local_did
      → destination.address ≢ bus.router.local_did
      → contains DipNetwork_discrete destination.network bus.router.registered_adapters ≡ true
      → (r : RoutedEvent V) × (send s p t bus kind id destination payload ttl
          ≡ (marked bus t, ok r))
        × IsSent t kind id destination payload r
  unfolding is_expired send add envelope_root
  send_ok t bus kind id destination payload ttl v unseen early by_did by_address adapter =
      let d : Draft V = record {
        origin = bus.local_addr;
        destination = destination;
        identity = bus.identity;
        kind = DipKind.receipt;
        payload = payload;
        ttl_secs = ttl;
        private_key = bus.signing_key;
      } in
      let root = envelope_root s (id_of t) t.built d in
      let (signature, k) = v.signs root in
      let e = envelope_of s (id_of t) t.built d root signature in
      let sealed : build_envelope s t.uuid t.built d ≡ ok e =
        (build_envelope_iff s t.uuid t.built d e).1 (record {
          identified = v.identified;
          signature = signature;
          signed = k;
          envelope = refl;
        }) in
      let live : ltb ((t.built + ttl * 1000) % 2 ^ 64) t.routed ≡ false = ground (arith, early) in
      let routed =
        route_forward t.routed bus.router e.routed unseen live by_did by_address adapter in
      (
        record {
          event_kind = kind;
          receipt_id = id;
          envelope = e;
          decision = forward destination.network;
        },
        rw (send, sealed, routed) refl,
        record {
          event_kind = refl;
          receipt_id = refl;
          message_id = refl;
          payload = refl;
          destination = refl;
          decision = refl;
        },
      )

  -- A bus whose receipts go to another node on Vantage.
  pub record IsOpen (bus : PipelineEventBus) : Type 0 where
    pub signing : IsSigning bus
    pub elsewhere : bus.vantage_did ≢ bus.router.local_did
    pub adapter :
        contains DipNetwork_discrete DipNetwork.vantage bus.router.registered_adapters ≡ true

  abbrev pub IsAnnounced : (vantage_did : Text) → Draw × PipelineEvent F G → RoutedEvent V → Type 0
  IsAnnounced vantage_did (t, event) =
      IsSent t (kind_label event) (event_receipt_id event) (vantage_address vantage_did)
        (to_payload s p event)

  -- One report for each event, in their order.
  abbrev pub AllAnnounced :
      (vantage_did : Text) → List (Draw × PipelineEvent F G) → List (RoutedEvent V) → Type 0
  AllAnnounced vantage_did [] [] = Unit
  AllAnnounced vantage_did [] (r ∷ rs) = ⊥
  AllAnnounced vantage_did (e ∷ es) [] = ⊥
  AllAnnounced vantage_did (e ∷ es) (r ∷ rs) =
      IsAnnounced vantage_did e r × AllAnnounced vantage_did es rs

  -- Ids that were not seen before, each routed within the hour it has.
  abbrev pub AllFresh : List Text → List (Draw × PipelineEvent F G) → Type 0
  AllFresh seen [] = Unit
  AllFresh seen ((t, event) ∷ events) =
      (contains Text_discrete (id_of t) seen ≡ false)
      × (t.routed ≤ (t.built + 3600 * 1000) % 2 ^ 64)
      × AllFresh (add Text_discrete (id_of t) seen) events

  abbrev pub marked_all : PipelineEventBus → List (Draw × PipelineEvent F G) → PipelineEventBus
  marked_all bus [] = bus
  marked_all bus ((t, event) ∷ events) = marked_all (marked bus t) events

  emit_ok :
      (t : Draw) (bus : PipelineEventBus) (event : PipelineEvent F G)
      → IsOpen bus
      → contains Text_discrete (id_of t) bus.router.seen ≡ false
      → t.routed ≤ (t.built + 3600 * 1000) % 2 ^ 64
      → (r : RoutedEvent V) × (emit s p t bus event ≡ (marked bus t, ok r))
        × IsAnnounced bus.vantage_did (t, event) r
  unfolding emit vantage_address
  emit_ok t bus event v unseen early =
      send_ok t bus (kind_label event) (event_receipt_id event) (vantage_address bus.vantage_did)
        (to_payload s p event) 3600 v.signing unseen early v.elsewhere v.elsewhere v.adapter

  emit_all_step :
      (t : Draw) (bus after last : PipelineEventBus) (event : PipelineEvent F G)
      (events : List (Draw × PipelineEvent F G)) (r : RoutedEvent V) (rs : List (RoutedEvent V))
      → emit s p t bus event ≡ (after, ok r)
      → emit_all s p after events ≡ (last, ok rs)
      → emit_all s p bus ((t, event) ∷ events) ≡ (last, ok (r ∷ rs))
  unfolding emit_all
  emit_all_step t bus after last event events r rs h k = cc (h, k)

  -- A bus that can sign for a complete identity, has an adapter for Vantage and sends to another
  -- node there announces every event of a list whose draws give ids not used before, each routed
  -- within its hour: one report for each event, in their order, under the id of its draw, with its
  -- kind, its receipt id and its receipt as payload, and all forwarded to Vantage.
  pub emit_all_announces :
      (bus : PipelineEventBus) (events : List (Draw × PipelineEvent F G))
      → IsOpen bus
      → AllFresh bus.router.seen events
      → (rs : List (RoutedEvent V)) × (emit_all s p bus events ≡ (marked_all bus events, ok rs))
        × AllAnnounced bus.vantage_did events rs
  unfolding emit_all
  emit_all_announces bus [] v fresh = ([], refl, tt)
  emit_all_announces bus ((t, event) ∷ events) v (unseen, early, rest) =
      let (r, sent, what) = emit_ok t bus event v unseen early in
      let (rs, all, announced) =
        emit_all_announces (marked bus t) events
          (record {
            signing = record { identified = v.signing.identified; signs = v.signing.signs };
            elsewhere = v.elsewhere;
            adapter = v.adapter;
          })
          rest in
      (r ∷ rs, emit_all_step t bus _ _ event events r rs sent all, (what, announced))
