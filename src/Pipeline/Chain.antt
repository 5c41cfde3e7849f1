-- ===== src/Pipeline/Chain.antt =====
-- sovereign-pipeline/src/proof_chain.rs: from the output of a capture to a proof of simulation, an
-- NFT and the announcement of the receipts.
use sovereign_stack.Base.{
  ℕ, Bool, Option, none, some, List, [], ◌∷◌, ◌++◌, map, Text, if◌then◌else◌, Result, ok, ◌>>=◌,
  map_err,
}
use sovereign_stack.Runtime.Identity.{IdentityChain}
use sovereign_stack.Shared.Merkle.{Hashing}
use sovereign_stack.Twin.Simulation.{TspError, Services, SimulationReceipt}
use sovereign_stack.Twin.Engine.{
  SimScenario, OsovmRunResult, OsovmEngine, Twin, Arithmetic, new_engine, bypassing_sabbath, prove,
}
use sovereign_stack.Twin.Asset.{TwinAsset}
use sovereign_stack.Twin.Receipts.{SceneReceipt}
use sovereign_stack.Twin.Anchor.{SuiNode, SuiAnchor, SuiMintResponse, mint_twin}
use sovereign_stack.Dip.Envelope.{EnvelopeServices}
use sovereign_stack.Pipeline.Bus.{
  RoutedEvent, PipelineEventBus, BusError, Draw, Payloads, new_bus, with_nostr,
  emit_pipeline_output, cross_post_to_nostr,
}
use sovereign_stack.Pipeline.Capture.{PipelineOutput, PipelineError, simulation, capture_failed}

pub record ProofChainOutput (F G : Type 0) : Type 0 where
  pub pipeline : PipelineOutput F G
  pub simulation : SimulationReceipt F
  pub sui_mint : SuiMintResponse
  pub dip_message_ids : List Text

pub record ProofChainConfig : Type 0 where
  pub scenario : SimScenario
  pub osovm_version : Text
  pub sui_rpc : Text
  pub sui_address : Text
  pub sui_key : Text
  pub nostr_npub : Option Text
  pub vantage_did : Text
  pub bypass_sabbath : Bool

pub record ProofChain : Type 0 where
  pub config : ProofChainConfig
  pub agent_key : Text
  pub identity : IdentityChain

-- What a run draws: for the proof, two UUIDs and the clock in milliseconds and in seconds; then one
-- draw for each of the messages.
pub record ChainDraws : Type 0 where
  pub run_uuid : Text
  pub proof_uuid : Text
  pub now : ℕ
  pub now_secs : ℕ
  pub capture : Draw
  pub scene : Draw
  pub session : Draw
  pub nostr : Draw

-- What the simulation reads of a twin.
abbrev pub simulated : {F G : Type 0} → TwinAsset F G → Twin F
simulated twin = record { twin_id = twin.twin_id; f1_score = twin.quality.f1_score }

unfoldable pub engine_of : ProofChainConfig → OsovmEngine
engine_of config =
    if config.bypass_sabbath
    then bypassing_sabbath (new_engine config.osovm_version)
    else new_engine config.osovm_version

-- `if let Some(npub) = ..`
abbrev pub noting : PipelineEventBus → Option Text → PipelineEventBus
noting bus none = bus
noting bus (some npub) = with_nostr bus npub

unfoldable pub bus_of : ProofChain → PipelineEventBus
bus_of chain =
    new_bus chain.identity.agent_id chain.config.vantage_did chain.agent_key chain.identity

abbrev pub message_id_of : {V : Type 0} → RoutedEvent V → Text
message_id_of e = e.envelope.routed.message_id

module _ {F G V : Type 0} (s : EnvelopeServices V) (p : Payloads F G V) where
  -- the cross-post, if a Nostr key is configured
  unfoldable pub cross_post :
      Draw
      → (nostr_npub : Option Text) → PipelineEventBus
      → SceneReceipt F
      → Result BusError (List Text)
  cross_post t none bus scene = ok []
  cross_post t (some npub) bus scene =
      (cross_post_to_nostr s p t bus scene).1 >>= λ e. ok (message_id_of e ∷ [])

  -- step 3: the ids of the messages, in their order
  unfoldable pub announce :
      ChainDraws
      → PipelineEventBus
      → (nostr_npub : Option Text) → PipelineOutput F G
      → Result BusError (List Text)
  announce t bus nostr_npub output =
      let (after, result) =
        emit_pipeline_output s p t.capture t.scene t.session bus output.capture_receipt
          output.scene_receipt output.session_receipt in
      result >>= λ events. cross_post t.nostr nostr_npub after output.scene_receipt >>= λ more.
      ok (map message_id_of events ++ more)

module _ {F G V : Type 0} (h : Hashing) (node : SuiNode F) (s : EnvelopeServices V)
    (p : Payloads F G V) where
  -- step 2: the object id goes into the scene receipt and into the twin
  unfoldable pub anchored : ProofChain → PipelineOutput F G → PipelineOutput F G × SuiMintResponse
  anchored chain output =
      let anchor : SuiAnchor = record {
        rpc_url = chain.config.sui_rpc;
        address = chain.config.sui_address;
        key = chain.config.sui_key;
      } in
      let (scene, response) = mint_twin h node anchor output.scene_receipt in
      (
        record output {
          scene_receipt = scene;
          twin = record output.twin { sui_object_id = scene.sui_object_id };
        },
        response,
      )

  -- `ProofChain::run_with_simulation`
  unfoldable pub run_with_simulation :
      ChainDraws
      → ProofChain
      → PipelineOutput F G
      → SimulationReceipt F
      → Result (PipelineError F G) (ProofChainOutput F G)
  run_with_simulation t chain output receipt =
      let (minted, response) = anchored chain output in
      let npub = chain.config.nostr_npub in
      map_err capture_failed (announce s p t (noting (bus_of chain) npub) npub minted) >>= λ ids.
      ok (record {
        pipeline = minted;
        simulation = receipt;
        sui_mint = response;
        dip_message_ids = ids;
      })

  module _ (a : Arithmetic F)
      (run_real : Text → Twin F → SimScenario → Result TspError (OsovmRunResult F))
      (services : Services F) where
    -- `ProofChain::run`; the witnesses are DIDs and signing keys
    unfoldable pub run_chain :
        ChainDraws
        → ProofChain
        → PipelineOutput F G
        → List (Text × Text)
        → Result (PipelineError F G) (ProofChainOutput F G)
    run_chain t chain output witnesses =
        map_err simulation (
          prove a run_real services t.run_uuid t.proof_uuid t.now t.now_secs
            (engine_of chain.config) (simulated output.twin) chain.config.scenario chain.identity
            chain.agent_key witnesses)
        >>= λ receipt. run_with_simulation t chain output receipt
