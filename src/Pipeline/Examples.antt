-- ===== src/Pipeline/Examples.antt =====
-- A capture, its announcement and its chain at concrete values.
use sovereign_stack.Base.{
  ℕ, ◌≡◌, ◌↔◌, refl, some, none, List, [], Text, text, Text_discrete, ok, contains, add, arith,
  Succeeds,
}
use sovereign_stack.Runtime.Identity.{validate_chain}
use sovereign_stack.Vcp.Grant.{covers, is_expired}
use sovereign_stack.Vcp.Session.{new_session}
use sovereign_stack.Pipeline.Capture.{
  PipelineOutput, run_capture, splatted, capture_or_stub, stub_capture,
}
use sovereign_stack.Twin.Engine.{
  bypassing_sabbath, new_engine, trajectories_from, trajectory, policy_name, tally_all, tally, less,
  measure, max_2,
}
use sovereign_stack.Dip.Router.{nostr_address, new_router, register_adapter, DipNetwork_discrete}
use sovereign_stack.Dip.Envelope.{DipKind, build_envelope, validate_envelope}
use sovereign_stack.Dip.Sealed.{altered, validate-build, altered_validates}
use sovereign_stack.Pipeline.Bus.{RoutedEvent, emit_all, new_bus}
use sovereign_stack.Pipeline.Broadcast.{
  IsOpen, AllFresh, AllAnnounced, marked_all, emit_all_announces,
}
use sovereign_stack.Pipeline.Chain.{ProofChainOutput, engine_of, bus_of, run_chain}
use sovereign_stack.Pipeline.Announced.{events_of, ids_of}
use sovereign_stack.Pipeline.Complete.{IsAnnouncing, IsProving, run_chain_total}
use sovereign_stack.Pipeline.Granted.{Signs}
use sovereign_stack.Pipeline.Linked.{IsLinked, IsReady, run_capture-IsLinked, run_capture_iff}
use sovereign_stack.Pipeline.Samples.{
  assets, chain, commands, devices, draft, draws, envelopes, grant, granted, keys, naturals,
  payloads, pipeline, plain, readings, services, session, sui, unreachable,
}

opened : new_session 5 grant ≡ session
unfolding new_session
opened = refl

signs : Signs assets commands devices (text "key")
signs = ((λ m. (m, refl)), (λ m. (m, refl)))

ready : IsReady assets commands devices readings pipeline session none
unfolding covers is_expired Text_discrete splatted capture_or_stub stub_capture
ready = record {
  granted = record {
    camera = (granted (text "camera"), refl);
    lidar = (granted (text "lidar"), refl);
    telemetry = (granted (text "telemetry"), refl);
  };
  gated = refl;
  splat = text "STUB_SPLAT_PLY_DATA";
  splatted = refl;
}

run_capture_iff_example :
    Succeeds (run_capture assets commands devices readings pipeline session none)
    ↔ IsReady assets commands devices readings pipeline session none
run_capture_iff_example =
    run_capture_iff assets commands devices readings pipeline session none signs

captured : Succeeds (run_capture assets commands devices readings pipeline session none)
captured = (run_capture_iff assets commands devices readings pipeline session none signs).1 ready

run_capture-IsLinked_example :
    IsLinked assets commands devices readings pipeline session none captured.0
run_capture-IsLinked_example =
    run_capture-IsLinked assets commands devices readings pipeline session none captured.0
      captured.1

built : Succeeds (build_envelope envelopes (text "u") 5 draft)
unfolding build_envelope validate_chain
built = (_, refl)

validate-build_example : validate_envelope envelopes 6 built.0 (text "public") ≡ ok tt
validate-build_example =
    validate-build envelopes (text "u") 5 6 draft built.0 (text "public") (λ m g e. refl) built.1
      (omega arith)

altered_validates_example :
    validate_envelope envelopes 6
      (altered envelopes built.0
        (text "dip:other")
        (nostr_address (text "npub2"))
        DipKind.receipt
        (text "other"))
      (text "public")
    ≡ ok tt
altered_validates_example =
    altered_validates envelopes (text "u") 5 6 draft built.0 (text "public") (λ m g e. refl) built.1
      (omega arith) (text "dip:other") (nostr_address (text "npub2")) DipKind.receipt (text "other")

abbrev output : PipelineOutput ℕ ℕ
output = captured.0

fresh_ids : AllFresh envelopes payloads [] (events_of envelopes payloads draws output)
unfolding contains add Text_discrete
fresh_ids = (refl, omega arith, (refl, omega arith, (refl, omega arith, tt)))

IsOpen-bus : IsOpen envelopes payloads (bus_of chain)
unfolding bus_of new_bus register_adapter new_router add contains DipNetwork_discrete validate_chain
IsOpen-bus = record {
  signing = record { identified = refl; signs = λ m. (m, refl) };
  elsewhere = λ e. cc e;
  adapter = refl;
}

emit_all_announces_example :
    (rs : List (RoutedEvent Text)) × (emit_all envelopes payloads
        (bus_of chain)
        (events_of envelopes payloads draws output)
      ≡ (
        marked_all envelopes payloads (bus_of chain) (events_of envelopes payloads draws output),
        ok rs,
      ))
    × AllAnnounced envelopes payloads
        (text "did:vantage")
        (events_of envelopes payloads draws output)
        rs
unfolding bus_of new_bus register_adapter new_router
emit_all_announces_example =
    emit_all_announces envelopes payloads (bus_of chain) (events_of envelopes payloads draws output)
      IsOpen-bus fresh_ids

announcing :
    IsAnnouncing plain sui envelopes payloads naturals unreachable services draws chain output keys
unfolding validate_chain contains add Text_discrete bus_of new_bus register_adapter new_router
announcing = record {
  identified = refl;
  elsewhere = λ e. cc e;
  signs = λ m. (m, refl);
  fresh = fresh_ids;
  postable = (refl, omega arith, (λ e. cc e), (_, refl));
}

proving :
    IsProving plain sui envelopes payloads naturals unreachable services draws chain output keys
unfolding engine_of bypassing_sabbath new_engine trajectories_from trajectory policy_name tally_all
    tally less measure max_2 Text_discrete
proving = record {
  open_day = refl;
  comparable = ((λ e. cc, tt), (tt, tt));
  enough = omega arith;
  policies_text = text "[]";
  serialised = refl;
  signs = λ m. (m, refl);
}

run_chain_total_example :
    (out : ProofChainOutput ℕ ℕ) × (run_chain plain sui envelopes payloads naturals unreachable
        services draws chain output keys
      ≡ ok out)
    × (out.dip_message_ids ≡ ids_of envelopes payloads draws (some (text "npub1xyz")))
run_chain_total_example =
    run_chain_total plain sui envelopes payloads naturals unreachable services draws chain output
      keys proving announcing
