-- ===== src/Pipeline/Anchored.antt =====
-- What sovereign-pipeline/src/proof_chain.rs returns, and when.
use sovereign_stack.Base.{◌≡◌, some, List, Text, Result}
use sovereign_stack.Shared.Merkle.{Hashing}
use sovereign_stack.Twin.Simulation.{TspError, Services, SimulationReceipt}
use sovereign_stack.Twin.Engine.{SimScenario, OsovmRunResult, Twin, Arithmetic}
use sovereign_stack.Twin.Attested.{IsAttested}
use sovereign_stack.Twin.Receipts.{with_sui}
use sovereign_stack.Twin.Anchor.{SuiNode}
use sovereign_stack.Dip.Envelope.{EnvelopeServices}
use sovereign_stack.Pipeline.Bus.{BusError, Payloads}
use sovereign_stack.Pipeline.Capture.{PipelineOutput}
use sovereign_stack.Pipeline.Chain.{
  ProofChain, ProofChainOutput, ChainDraws, simulated, engine_of, bus_of, noting, anchored,
  announce,
}

module _ {F G V : Type 0} (h : Hashing) (node : SuiNode F) (s : EnvelopeServices V)
    (p : Payloads F G V) where
  -- The output with the object id of the NFT in the scene receipt and the twin, and nothing else new.
  pub record IsAnchored (before : PipelineOutput F G) (out : ProofChainOutput F G) : Type 0 where
    pub scene :
        out.pipeline.scene_receipt
        ≡ with_sui before.scene_receipt out.sui_mint.object_id out.sui_mint.tx_digest
    pub twin :
        out.pipeline.twin ≡ record before.twin { sui_object_id = some out.sui_mint.object_id }
    pub capture : out.pipeline.capture_receipt ≡ before.capture_receipt
    pub session : out.pipeline.session_receipt ≡ before.session_receipt

  -- the announcement of the anchored output
  abbrev announced : ChainDraws → ProofChain → PipelineOutput F G → Result BusError (List Text)
  announced t chain output =
      announce s p t (noting (bus_of chain) chain.config.nostr_npub) chain.config.nostr_npub
        (anchored h node s p chain output).0

  module _ (a : Arithmetic F)
      (run_real : Text → Twin F → SimScenario → Result TspError (OsovmRunResult F))
      (services : Services F) where
    -- The receipt of a chain's simulation shows all that `prove` guarantees.
    abbrev pub IsAttestedBy :
        ChainDraws
        → ProofChain
        → PipelineOutput F G
        → List (Text × Text)
        → SimulationReceipt F
        → Type 0
    IsAttestedBy t chain output witnesses r =
        IsAttested a run_real services t.run_uuid t.proof_uuid t.now t.now_secs
          (engine_of chain.config) (simulated output.twin) chain.config.scenario chain.identity
          chain.agent_key witnesses r
