-- ===== src/Lib.antt =====
-- A model of the deterministic core of the sovereign stack, a Rust workspace for agents that own
-- devices, compute and receipts, with the theorems that make it correct.
--
-- The parts and how they interact. A principal with an identity chain asks to act. The
-- capability kernel decides whether its capability covers the action, the execution chain runs
-- the function that does the work and leaves an action receipt, and the receipt passes the SEP-1
-- gate or not. Before a body moves, the safety supervisor gives a verdict on the command.
-- Devices of their own grant capabilities over VCP and check each command against the grant. A
-- simulation of a twin ends in a receipt that two witnesses attest to, and proofs of simulation
-- work are paid for by the emission allocator. The pipeline ties these together: a capture over
-- a VCP session becomes receipts and a twin, the twin a proof of simulation and an NFT, and the
-- receipts signed envelopes that the router forwards. Agents file their action receipts, each
-- naming the hash of the one before, with the ARP broker. Messages travel as DIP envelopes
-- through a router and as byte frames over the mesh. Compute jobs are matched with providers by
-- the UCX broker, and agents hand tasks to each other over A2A. A node watches over the capture
-- jobs of a swarm of devices, and places are named by the tiles of a grid.
--
-- Which file models which part:
--
-- - Mesh/Codec: sovereign-types/src/mesh_envelope.rs. encode and decode are
--   OsoMeshEnvelope::encode and ::decode, encode_body and decode_body those of OsoMeshBody.
-- - Runtime/Identity, Runtime/Principal: sovereign-types/src/identity.rs and
--   sovereign-runtime/src/principal.rs. validate is Principal::validate.
-- - Runtime/Capability: sovereign-runtime/src/capability.rs. evaluate is
--   CapabilityKernel::evaluate.
-- - Runtime/Safety: sovereign-runtime/src/safety.rs. The supervisor is its tier and its stop
--   flag.
-- - Runtime/Receipt, Runtime/Receipt/Work: sovereign-runtime/src/receipt.rs and evidence.rs,
--   sovereign-types/src/proof.rs and work_id.rs. denied_receipt is ActionReceipt::denied.
-- - Runtime/Execution: sovereign-runtime/src/execution.rs and chain.rs. run_sovereign takes the
--   executed function as an argument.
-- - Runtime/Embodiment: sovereign-runtime/src/power.rs and embodiment.rs.
-- - Emission/Allocator, with its records in Emission/Allocator/Records:
--   twin-protocol/src/emission.rs. allocate_minute returns the new allocator, the allocation and
--   the authorisation; screen and pay are its two loops.
-- - Vcp: vcp/src/manifest.rs, grant.rs, command.rs and session.rs.
-- - Shared/Merkle: sovereign-types/src/merkle.rs. A root is none where the recursion would not
--   end, which is never.
-- - Twin/Simulation, Twin/Engine, Twin/Engine/Scenario: twin-protocol/src/simulation.rs and
--   osovm.rs. build is SimulationReceipt::build, prove and its two phases are those of
--   ProofOfSimulation; a panic is an error value that nothing catches.
-- - Twin/Asset, Twin/Receipts: twin-protocol/src/quality.rs, region.rs, twin.rs, capture.rs and
--   scene.rs. build_capture and build_scene are CaptureReceipt::build and SceneReceipt::build.
-- - Twin/Timeline, Twin/License: twin-protocol/src/timeline.rs and license.rs. The stable sort
--   of the standard library is an insertion sort.
-- - Twin/Anchor: twin-protocol/src/sui_anchor.rs and sui_rpc.rs. mint_twin returns the receipt
--   that the source changes in place.
-- - Pipeline/Capture, Pipeline/Capture/Raw: sovereign-pipeline/src/capture_pipeline.rs.
--   run_capture is CapturePipeline::run; drive is Go2CaptureDriver::capture.
-- - Pipeline/Bus, Pipeline/Chain: sovereign-pipeline/src/event_bus.rs and proof_chain.rs. send
--   is what emit and cross_post_to_nostr share; run_chain is ProofChain::run.
-- - Witness/Broker: witness-types/src and witness-broker/src/bin/main.rs. Each handler is one
--   locked step.
-- - Arp/Broker: arp-types/src/principal.rs and receipt.rs and arp-broker/src/bin/main.rs. check
--   and store are the two critical sections of submit_receipt, which Arp/Race lets interleave.
-- - Dip/Router: dip/src/address.rs, envelope.rs and router.rs. route returns the new router and
--   the decision.
-- - Dip/Envelope: dip/src/envelope.rs. The fields that routing reads are a Dip/Router envelope
--   inside the signed one.
-- - Dip/Cascade: dip/src/oso_router.rs. An adapter is a function of the envelope and the time it
--   takes an argument.
-- - Grid/Tile: sovereign-types/src/odu.rs. A call that may panic gives an Outcome.
-- - Node/Swarm: sovereign-node/src/jobs.rs and swarm.rs. poll_from is the loop of monitor_swarm;
--   what the job store holds at each poll is an argument, since other tasks change it meanwhile.
-- - Ucx: ucx-protocol/src, ucx-broker/src/broker.rs and ucx-provider/src/local_provider.rs. A
--   provider is a record of its operations.
-- - A2a: sovereign-a2a/src/types.rs and router.rs. The task table is passed as state.
--   handle_task_cancel is check_cancelable and cancel_task, dispatch_task is start_dispatch and
--   finish_dispatch; these are the locked steps, which A2a/Interleaved lets interleave.
-- - Base has the shared tests, lists, results, dictionaries, texts and float comparisons.
--
-- Conventions. Numbers are native naturals; where the code computes in 32 or 64 bits the
-- remainder by a power of two is written out. A String is the list of its UTF-8 bytes. HashMap
-- and HashSet are association lists and lists without repetition; the code never depends on
-- their order. Clock readings and fresh UUIDs are arguments. Error messages are replaced by the
-- values they are formatted from. A mutable object is passed in and returned.
--
-- Floats. The mesh and the safety supervisor only compare floats: Base/Floats has the values of
-- IEEE-754 as far as comparison sees them. The emission allocator, the simulation engine, the
-- UCX broker and VCP take the type of floats and its operations as parameters, so their theorems
-- hold for any arithmetic.
--
-- Parameters. BLAKE3, SHA-256, Ed25519, JSON serialisation, the job runner, the capture device,
-- the splatting program and the Sui node are parameters; the hypotheses on them are that a
-- public key verifies what its private key signs, that a hash is never the empty text, that a
-- SHA-256 digest has 32 bytes, and that hexadecimal and JSON texts can be decoded. That SHA-256
-- has no collisions is never assumed: a theorem that needs it ends in a collision as its other
-- outcome.
--
-- Loops are structural recursion on lists, so no fuel is needed; the swarm monitor polls 450
-- times at most, as in the code, and the halving of Merkle leaves has their number as fuel,
-- which is shown to be enough.
--
-- Not modelled: network and file input and output, cryptographic primitives, float simulation,
-- HTTP plumbing, the endpoints of the node server, point-cloud processing and the front ends;
-- the governance tables, trust tiers, IP layer and the swarm broker, which keep apart from the
-- parts above.
pub mod Base
pub mod Mesh
pub mod Runtime
pub mod Emission
pub mod Vcp
pub mod Dip
pub mod Ucx
pub mod A2a
pub mod Grid
pub mod Node
pub mod Shared
pub mod Twin
pub mod Arp
pub mod Witness
pub mod Pipeline
