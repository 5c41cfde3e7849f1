-- ===== src/Pipeline/Bus.antt =====
-- sovereign-pipeline/src/event_bus.rs: receipts become signed envelopes, which the router of dip
-- decides on. UUIDs and clock readings are arguments.
use sovereign_stack.Base.{
  ℕ, Option, none, some, List, [], ◌∷◌, Text, text, Result, ok, err, ◌>>=◌, map_err,
}
use sovereign_stack.Runtime.Identity.{IdentityChain}
use sovereign_stack.Vcp.Session.{VcpSessionReceipt}
use sovereign_stack.Twin.Receipts.{CaptureReceipt, SceneReceipt}
use sovereign_stack.Dip.Router.{
  DipNetwork, DipAddress, DipRouter, DipError, RouteDecision, vantage_address, nostr_address,
  new_router, register_adapter, route,
}
use sovereign_stack.Dip.Envelope.{
  EnvelopeError, EnvelopeServices, SignedEnvelope, DipKind, build_envelope,
}

-- `DipError`, as the bus gives it.
pub data BusError : Type 0 where
  envelope_failed : EnvelopeError → BusError
  not_routed : DipError → BusError
  routing_failed : Text → BusError

pub data PipelineEvent (F G : Type 0) : Type 0 where
  capture : CaptureReceipt F G → PipelineEvent F G
  scene : SceneReceipt F → PipelineEvent F G
  session : VcpSessionReceipt → PipelineEvent F G

unfoldable pub kind_label : {F G : Type 0} → PipelineEvent F G → Text
kind_label (capture r) = text "capture_receipt_31020"
kind_label (scene r) = text "scene_receipt_31030"
kind_label (session r) = text "vcp_session_receipt"

unfoldable pub event_receipt_id : {F G : Type 0} → PipelineEvent F G → Text
event_receipt_id (capture r) = r.receipt_id
event_receipt_id (scene r) = r.receipt_id
event_receipt_id (session r) = r.receipt_id

pub record RoutedEvent (V : Type 0) : Type 0 where
  pub event_kind : Text
  pub receipt_id : Text
  pub envelope : SignedEnvelope V
  pub decision : RouteDecision

pub record PipelineEventBus : Type 0 where
  pub router : DipRouter
  pub local_addr : DipAddress
  pub signing_key : Text
  pub identity : IdentityChain
  pub vantage_did : Text
  pub nostr_npub : Option Text

unfoldable pub new_bus :
    (local_did vantage_did signing_key : Text) → IdentityChain → PipelineEventBus
new_bus local_did vantage_did signing_key identity = record {
  router =
      register_adapter (register_adapter (new_router local_did) DipNetwork.vantage)
        DipNetwork.nostr;
  local_addr = vantage_address local_did;
  signing_key = signing_key;
  identity = identity;
  vantage_did = vantage_did;
  nostr_npub = none;
}

unfoldable pub with_nostr : PipelineEventBus → Text → PipelineEventBus
with_nostr bus npub = record bus { nostr_npub = some npub }

-- What one event draws: a UUID, the clock when it is built and the clock when it is routed.
pub record Draw : Type 0 where
  pub uuid : Text
  pub built : ℕ
  pub routed : ℕ

-- `serde_json::to_value` of the three receipts, with `Value::Null` for a failure; that of the scene
-- can be asked for with its failure.
pub record Payloads (F G V : Type 0) : Type 0 where
  pub capture_value : CaptureReceipt F G → V
  pub scene_value : SceneReceipt F → V
  pub session_value : VcpSessionReceipt → V
  pub scene_to_value : SceneReceipt F → Result Text V

module _ {F G V : Type 0} (s : EnvelopeServices V) (p : Payloads F G V) where
  unfoldable pub to_payload : PipelineEvent F G → V
  to_payload (capture r) = p.capture_value r
  to_payload (scene r) = p.scene_value r
  to_payload (session r) = p.session_value r

  -- what `emit` and `cross_post_to_nostr` share: build, route, and report
  unfoldable pub send :
      Draw
      → PipelineEventBus
      → (event_kind receipt_id : Text) (destination : DipAddress) → V
      → (ttl : ℕ) → PipelineEventBus × Result BusError (RoutedEvent V)
  send t bus event_kind receipt_id destination payload ttl =
      elim (build_envelope s t.uuid t.built (record {
        origin = bus.local_addr;
        destination = destination;
        identity = bus.identity;
        kind = DipKind.receipt;
        payload = payload;
        ttl_secs = ttl;
        private_key = bus.signing_key;
      })) [
        | err e ↦ (bus, err (envelope_failed e))
        | ok envelope ↦
            let (router, decision) = route t.routed bus.router envelope.routed in
            (
              record bus { router = router },
              map_err not_routed decision >>= λ d. ok (record {
                event_kind = event_kind;
                receipt_id = receipt_id;
                envelope = envelope;
                decision = d;
              }),
            )
      ]

  unfoldable pub emit :
      Draw
      → PipelineEventBus
      → PipelineEvent F G
      → PipelineEventBus × Result BusError (RoutedEvent V)
  emit t bus event =
      send t bus (kind_label event) (event_receipt_id event) (vantage_address bus.vantage_did)
        (to_payload event) 3600

  -- the three `emit`s with `?`, each on the bus that the one before has left
  unfoldable pub emit_all :
      PipelineEventBus
      → List (Draw × PipelineEvent F G)
      → PipelineEventBus × Result BusError (List (RoutedEvent V))
  emit_all bus [] = (bus, ok [])
  emit_all bus ((t, event) ∷ events) =
      let (after, result) = emit t bus event in
      let (last, rest) = emit_all after events in
      elim result [
        | err e ↦ (after, err e)
        | ok first ↦ (last, rest >>= λ routed. ok (first ∷ routed))
      ]

  unfoldable pub emit_pipeline_output :
      (t u v : Draw)
      → PipelineEventBus
      → CaptureReceipt F G
      → SceneReceipt F
      → VcpSessionReceipt
      → PipelineEventBus × Result BusError (List (RoutedEvent V))
  emit_pipeline_output t u v bus c r q =
      emit_all bus ((t, capture c) ∷ (u, scene r) ∷ (v, session q) ∷ [])

  unfoldable pub cross_post_to_nostr :
      Draw → PipelineEventBus → SceneReceipt F → PipelineEventBus × Result BusError (RoutedEvent V)
  cross_post_to_nostr t bus r = elim bus.nostr_npub [
    | none ↦ (bus, err (routing_failed (text "no Nostr npub configured")))
    | some npub ↦ elim (p.scene_to_value r) [
      | err e ↦ (bus, err (routing_failed e))
      | ok payload ↦
          send t bus (text "scene_receipt_31030_nostr") r.receipt_id (nostr_address npub) payload
            86400
    ]
  ]
