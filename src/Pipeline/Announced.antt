-- ===== src/Pipeline/Announced.antt =====
-- That the chain of sovereign-pipeline/src/proof_chain.rs announces what it returns.
use sovereign_stack.Base.{
  ◌+◌, ◌*◌, ◌%◌, ◌^◌, ◌≤◌, ◌≡◌, ◌≢◌, refl, true, false, Option, none, some, List, [], ◌∷◌, map,
  Text, text, Text_discrete, contains, Result, ok, Succeeds,
}
use sovereign_stack.Dip.Router.{DipNetwork, DipNetwork_discrete, nostr_address}
use sovereign_stack.Dip.Envelope.{EnvelopeServices}
use sovereign_stack.Twin.Receipts.{SceneReceipt}
use sovereign_stack.Pipeline.Bus.{
  PipelineEvent, RoutedEvent, PipelineEventBus, BusError, Draw, Payloads, capture, scene, session,
  emit_all, emit_pipeline_output, cross_post_to_nostr, send,
}
use sovereign_stack.Pipeline.Broadcast.{
  IsSigning, IsOpen, AllAnnounced, AllFresh, id_of, marked_all, send_ok, emit_all_announces,
}
use sovereign_stack.Pipeline.Capture.{PipelineOutput}
use sovereign_stack.Pipeline.Chain.{ChainDraws, message_id_of, cross_post, announce}

module _ {F G V : Type 0} (s : EnvelopeServices V) (p : Payloads F G V) where
  -- the events of an output, each with its draw
  abbrev pub events_of : ChainDraws → PipelineOutput F G → List (Draw × PipelineEvent F G)
  events_of t output =
      (t.capture, capture output.capture_receipt)
      ∷ (t.scene, scene output.scene_receipt)
      ∷ (t.session, session output.session_receipt)
      ∷ []

  -- A cross-post that can be made: a fresh id within its day, a key of another node, and a payload.
  abbrev pub IsPostable : ChainDraws → PipelineEventBus → Option Text → SceneReceipt F → Type 0
  IsPostable t bus none r = Unit
  IsPostable t bus (some npub) r =
      (contains Text_discrete (id_of s p t.nostr) bus.router.seen ≡ false)
      × (t.nostr.routed ≤ (t.nostr.built + 86400 * 1000) % 2 ^ 64)
      × (npub ≢ bus.router.local_did)
      × Succeeds (p.scene_to_value r)

  abbrev pub cross_id : ChainDraws → Option Text → List Text
  cross_id t none = []
  cross_id t (some npub) = id_of s p t.nostr ∷ []

  -- the ids of what a chain announces
  abbrev pub ids_of : ChainDraws → Option Text → List Text
  ids_of t nostr_npub =
      id_of s p t.capture ∷ id_of s p t.scene ∷ id_of s p t.session ∷ cross_id t nostr_npub

  ids_announced :
      (did : Text) (events : List (Draw × PipelineEvent F G)) (rs : List (RoutedEvent V))
      → AllAnnounced s p did events rs
      → map message_id_of rs ≡ map (λ e. id_of s p e.0) events
  ids_announced did [] [] h = refl
  ids_announced did [] (r ∷ rs) h = absurd h
  ids_announced did (e ∷ events) [] h = absurd h
  ids_announced did ((t, event) ∷ events) (r ∷ rs) (sent, rest) =
      cc (sent.message_id, ids_announced did events rs rest)

  cross_posted :
      (t : Draw) (npub : Text) (bus : PipelineEventBus) (r : SceneReceipt F) (payload : V)
      (result : PipelineEventBus × Result BusError (RoutedEvent V))
      → bus.nostr_npub ≡ some npub
      → p.scene_to_value r ≡ ok payload
      → send s p t bus
          (text "scene_receipt_31030_nostr")
          r.receipt_id
          (nostr_address npub)
          payload
          86400
        ≡ result
      → cross_post_to_nostr s p t bus r ≡ result
  unfolding cross_post_to_nostr
  cross_posted t npub bus r payload result noted q sent = cc (noted, q, sent)

  posted :
      (t : ChainDraws) (nostr_npub : Option Text) (bus : PipelineEventBus) (r : SceneReceipt F)
      → bus.nostr_npub ≡ nostr_npub
      → IsSigning s p bus
      → [] ≢ bus.router.local_did
      → contains DipNetwork_discrete DipNetwork.nostr bus.router.registered_adapters ≡ true
      → IsPostable t bus nostr_npub r
      → cross_post s p t.nostr nostr_npub bus r ≡ ok (cross_id t nostr_npub)
  unfolding cross_post nostr_address
  posted t none bus r noted v named adapter h = refl
  posted t (some npub) bus r noted v named adapter (unseen, early, other, (payload, q)) =
      let (e, sent, what) =
        send_ok s p t.nostr bus (text "scene_receipt_31030_nostr") r.receipt_id (nostr_address npub)
          payload 86400 v unseen early named other adapter in
      let there = cross_posted t.nostr npub bus r payload _ noted q sent in
      cc (there, what.message_id)

  module _ (t : ChainDraws) (bus : PipelineEventBus) (output : PipelineOutput F G) where
    -- the bus after the three events
    abbrev pub after : PipelineEventBus
    after = marked_all s p bus (events_of t output)

    -- An open bus with fresh ids announces an output: the three ids in the order capture, scene and
    -- session, and the id of the cross-post if a Nostr key is configured.
    pub announce_ok :
        (nostr_npub : Option Text)
        → bus.nostr_npub ≡ nostr_npub
        → IsOpen s p bus
        → [] ≢ bus.router.local_did
        → contains DipNetwork_discrete DipNetwork.nostr bus.router.registered_adapters ≡ true
        → AllFresh s p bus.router.seen (events_of t output)
        → IsPostable t after nostr_npub output.scene_receipt
        → announce s p t bus nostr_npub output ≡ ok (ids_of t nostr_npub)
    unfolding announce emit_pipeline_output emit_all
    announce_ok nostr_npub noted v named adapter fresh postable =
        let (rs, all, what) = emit_all_announces s p bus (events_of t output) v fresh in
        let ids = ids_announced bus.vantage_did (events_of t output) rs what in
        let more =
          posted t nostr_npub after output.scene_receipt noted
            (record { identified = v.signing.identified; signs = v.signing.signs }) named adapter
            postable in
        cc (all, ids, more)
