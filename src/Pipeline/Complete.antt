-- ===== src/Pipeline/Complete.antt =====
-- That the chain of sovereign-pipeline/src/proof_chain.rs comes to its end.
use sovereign_stack.Base.{
  ℕ, ◌≤◌, ◌≡◌, ◌≢◌, refl, sym, subst, Bool, true, false, not, ◌&&◌, Option, none, some, List, [],
  Text, text, contains, add, length, is_empty, Result, ok, guard, Succeeds, if◌then◌else◌,
  bind-eq-ok,
}
use sovereign_stack.Runtime.Identity.{IdentityChain, incomplete_identity, validate_chain}
use sovereign_stack.Shared.Merkle.{Hashing}
use sovereign_stack.Emission.Allocator.{is_sabbath}
use sovereign_stack.Twin.Simulation.{TspError, Services, SimulationReceipt}
use sovereign_stack.Twin.Engine.{
  SimScenario, OsovmRunResult, OsovmEngine, Twin, Arithmetic, new_engine, bypassing_sabbath,
}
use sovereign_stack.Twin.Rollout.{Comparable, stub_policies}
use sovereign_stack.Twin.Witnessed.{prove_total}
use sovereign_stack.Twin.Anchor.{SuiNode}
use sovereign_stack.Dip.Router.{DipNetwork, DipNetwork_discrete, register_adapter, new_router}
use sovereign_stack.Dip.Envelope.{EnvelopeServices}
use sovereign_stack.Pipeline.Bus.{PipelineEventBus, Payloads, new_bus, with_nostr}
use sovereign_stack.Pipeline.Broadcast.{IsOpen, AllFresh, marked_all}
use sovereign_stack.Pipeline.Announced.{events_of, IsPostable, ids_of, announce_ok}
use sovereign_stack.Pipeline.Capture.{PipelineOutput}
use sovereign_stack.Pipeline.Chain.{
  ProofChain, ProofChainConfig, ProofChainOutput, ChainDraws, simulated, engine_of, bus_of, noting,
  anchored, announce, run_with_simulation, run_chain,
}

-- A complete identity names its agent.
named : (c : IdentityChain) → validate_chain c ≡ ok tt → [] ≢ c.agent_id
unfolding validate_chain
named c h e =
    let (u, a, h1) =
      bind-eq-ok (guard (not (is_empty c.principal_id)) (incomplete_identity (text "principal_id")))
        _ h in
    let (v, b, h2) =
      bind-eq-ok (guard (not (is_empty c.agent_id)) (incomplete_identity (text "agent_id"))) _ h1 in
    let b' : guard (not (is_empty {A = ℕ} [])) (incomplete_identity (text "agent_id")) ≡ ok v =
      subst (λ x. guard (not (is_empty x)) (incomplete_identity (text "agent_id")) ≡ ok v) (sym e)
        b in
    cc b'

module _ {F G V : Type 0} (s : EnvelopeServices V) (p : Payloads F G V) where
  noting_ok :
      (t : ChainDraws) (bus : PipelineEventBus) (output : PipelineOutput F G)
      (nostr_npub : Option Text)
      → bus.nostr_npub ≡ none
      → IsOpen s p bus
      → [] ≢ bus.router.local_did
      → contains DipNetwork_discrete DipNetwork.nostr bus.router.registered_adapters ≡ true
      → AllFresh s p bus.router.seen (events_of s p t output)
      → IsPostable s p t
          (marked_all s p bus (events_of s p t output))
          nostr_npub
          output.scene_receipt
      → announce s p t (noting bus nostr_npub) nostr_npub output ≡ ok (ids_of s p t nostr_npub)
  unfolding with_nostr
  noting_ok t bus output none e v n a f k = announce_ok s p t bus output none e v n a f k
  noting_ok t bus output (some npub) e v n a f k =
      announce_ok s p t (with_nostr bus npub) output (some npub) refl
        (record {
          signing = record { identified = v.signing.identified; signs = v.signing.signs };
          elsewhere = v.elsewhere;
          adapter = v.adapter;
        })
        n a f k

same_endpoint :
    (b : Bool) (e f : OsovmEngine)
    → e.endpoint ≡ none
    → f.endpoint ≡ none
    → (if b then e else f).endpoint ≡ none
same_endpoint true e f p q = p
same_endpoint false e f p q = q

offline : (config : ProofChainConfig) → (engine_of config).endpoint ≡ none
unfolding engine_of new_engine bypassing_sabbath
offline config = same_endpoint config.bypass_sabbath _ _ refl refl

module _ {F G V : Type 0} (h : Hashing) (node : SuiNode F) (s : EnvelopeServices V)
    (p : Payloads F G V) (a : Arithmetic F)
    (run_real : Text → Twin F → SimScenario → Result TspError (OsovmRunResult F))
    (services : Services F) (t : ChainDraws) (chain : ProofChain) (output : PipelineOutput F G)
    (witnesses : List (Text × Text)) where
  abbrev minted : PipelineOutput F G
  minted = (anchored h node s p chain output).0

  -- A chain whose messages can be built and sent to others, each under an id of its own.
  pub record IsAnnouncing : Type 0 where
    pub identified : validate_chain chain.identity ≡ ok tt
    pub elsewhere : chain.config.vantage_did ≢ chain.identity.agent_id
    pub signs : (m : Text) → Succeeds (s.sign m chain.agent_key)
    pub fresh : AllFresh s p [] (events_of s p t output)
    pub postable :
        IsPostable s p t
          (marked_all s p (bus_of chain) (events_of s p t output))
          chain.config.nostr_npub
          minted.scene_receipt

  -- A chain whose simulation can be run and proved.
  pub record IsProving : Type 0 where
    pub open_day : (not (engine_of chain.config).bypass_sabbath && is_sabbath t.now_secs) ≡ false
    pub comparable :
        Comparable a chain.config.scenario.selection_objective
          (stub_policies a t.run_uuid (simulated output.twin) chain.config.scenario)
    pub enough : 2 ≤ length witnesses
    pub policies_text : Text
    pub serialised :
        services.policies_json
          (stub_policies a t.run_uuid (simulated output.twin) chain.config.scenario)
        ≡ ok policies_text
    pub signs : (m : Text) → Succeeds (services.sign m chain.agent_key)

  announces :
      IsAnnouncing
      → announce s p t
          (noting (bus_of chain) chain.config.nostr_npub)
          chain.config.nostr_npub
          minted
        ≡ ok (ids_of s p t chain.config.nostr_npub)
  unfolding bus_of new_bus register_adapter new_router add contains DipNetwork_discrete
  announces v =
      noting_ok s p t (bus_of chain) minted chain.config.nostr_npub refl
        (record {
          signing = record { identified = v.identified; signs = v.signs };
          elsewhere = v.elsewhere;
          adapter = refl;
        })
        (named chain.identity v.identified) refl v.fresh v.postable

  -- what is returned with a proof of simulation
  abbrev returned : SimulationReceipt F → ProofChainOutput F G
  returned r = record {
    pipeline = minted;
    simulation = r;
    sui_mint = (anchored h node s p chain output).1;
    dip_message_ids = ids_of s p t chain.config.nostr_npub;
  }

  finishes :
      (r : SimulationReceipt F)
      → IsAnnouncing
      → run_with_simulation h node s p t chain output r ≡ ok (returned r)
  unfolding run_with_simulation
  finishes r w = cc (announces w)

  -- Without a real engine and outside the Sabbath, a chain with two witnesses or more, whose
  -- policies can be compared and written, whose keys can sign, whose identity is complete and whose
  -- messages have fresh ids, come in time and go to other nodes returns: whatever the Sui node
  -- says, it reports the messages for the capture, the scene and the session in this order, and
  -- that for Nostr if a key for it is configured.
  pub run_chain_total :
      IsProving
      → IsAnnouncing
      → (out : ProofChainOutput F G) × (run_chain h node s p a run_real services t chain output
            witnesses
          ≡ ok out)
        × (out.dip_message_ids ≡ ids_of s p t chain.config.nostr_npub)
  unfolding run_chain
  run_chain_total v w =
      let (c, r, proved, proven, attested) =
        prove_total a run_real services t.run_uuid t.proof_uuid t.now t.now_secs
          (engine_of chain.config) (simulated output.twin) chain.config.scenario chain.identity
          chain.agent_key witnesses v.policies_text (offline chain.config) v.open_day v.comparable
          v.enough v.serialised v.signs in
      (returned r, cc (proved, finishes r w), refl)
