-- ===== src/Vcp/Session.antt =====
-- vcp/src/session.rs: the counters of a session and its receipt. 32-bit counters and the 64-bit
-- duration wrap, as in a release build.
use sovereign_stack.Base.{
  or_swap, or_false, ℕ, ◌+◌, ◌-◌, ◌%◌, ◌^◌, ◌≡◌, ◌<◌, refl, ap, ◌∙◌, Bool, true, false, not, Option,
  none, List, [], ◌∷◌, ◌++◌, Text, Text_discrete, text, count_if, contains, add, contains-add,
  if◌then◌else◌, arith, ite, ◌||◌,
}
use sovereign_stack.Runtime.Identity.{IdentityChain}
use sovereign_stack.Vcp.Grant.{VcpCapabilityGrant}

pub data VcpSessionOutcome : Type 0 where
  completed revoked expired device_fault network_loss : VcpSessionOutcome

pub record VcpSessionReceipt : Type 0 where
  pub receipt_id : Text
  pub session_id : Text
  pub grant_id : Text
  pub identity : IdentityChain
  pub device_id : Text
  pub capabilities_used : List Text
  pub commands_issued : ℕ
  pub commands_success : ℕ
  pub commands_failed : ℕ
  pub telemetry_summary : Option Text
  pub started_at : ℕ
  pub ended_at : ℕ
  pub duration_ms : ℕ
  pub outcome : VcpSessionOutcome
  pub evidence_ids : List Text
  pub merkle_root : Text
  pub signature : Text

pub record VcpSession (F : Type 0) : Type 0 where
  pub grant : VcpCapabilityGrant F
  pub started_at : ℕ
  pub commands_issued : ℕ
  pub commands_success : ℕ
  pub commands_failed : ℕ
  pub capabilities_used : List Text
  pub evidence_ids : List Text

unfoldable pub new_session : {F : Type 0} → ℕ → VcpCapabilityGrant F → VcpSession F
new_session now grant = record {
  grant = grant;
  started_at = now;
  commands_issued = 0;
  commands_success = 0;
  commands_failed = 0;
  capabilities_used = [];
  evidence_ids = [];
}

unfoldable pub record_command : {F : Type 0} → VcpSession F → Text → Bool → VcpSession F
record_command s capability success =
    let used = record s {
      commands_issued = (s.commands_issued + 1) % 2 ^ 32;
      capabilities_used = add Text_discrete capability s.capabilities_used;
    } in
    if success
    then record used { commands_success = (s.commands_success + 1) % 2 ^ 32 }
    else record used { commands_failed = (s.commands_failed + 1) % 2 ^ 32 }

unfoldable pub add_evidence : {F : Type 0} → VcpSession F → Text → VcpSession F
add_evidence s receipt_id = record s { evidence_ids = s.evidence_ids ++ (receipt_id ∷ []) }

-- `u` is the UUID.
unfoldable pub close :
    {F : Type 0} → Text → ℕ → VcpSession F → VcpSessionOutcome → VcpSessionReceipt
close u now s outcome = record {
  receipt_id = text "rcpt:vcp:" ++ u;
  session_id = s.grant.session_id;
  grant_id = s.grant.grant_id;
  identity = s.grant.identity;
  device_id = s.grant.device_id;
  capabilities_used = s.capabilities_used;
  commands_issued = s.commands_issued;
  commands_success = s.commands_success;
  commands_failed = s.commands_failed;
  telemetry_summary = none;
  started_at = s.started_at;
  ended_at = now;
  duration_ms = (now + 2 ^ 64 - s.started_at) % 2 ^ 64;
  outcome = outcome;
  evidence_ids = s.evidence_ids;
  merkle_root = [];
  signature = [];
}

-- The events of a session.
pub data Event : Type 0 where
  command : (capability : Text) (success : Bool) → Event
  evidence : (receipt_id : Text) → Event

unfoldable pub play : {F : Type 0} → VcpSession F → List Event → VcpSession F
play s [] = s
play s (command capability success ∷ events) = play (record_command s capability success) events
play s (evidence receipt_id ∷ events) = play (add_evidence s receipt_id) events

abbrev succeeded : Event → Bool
succeeded (command _ success) = success
succeeded (evidence _) = false

abbrev failed : Event → Bool
failed (command _ success) = not success
failed (evidence _) = false

abbrev uses : Text → List Event → Bool
uses id [] = false
uses id (command capability _ ∷ events) = ite (Text_discrete capability id) true (uses id events)
uses id (evidence _ ∷ events) = uses id events

module _ {F : Type 0} where
  counts :
      (s : VcpSession F) (events : List Event)
      → s.commands_success + count_if succeeded events < 2 ^ 32
      → s.commands_failed + count_if failed events < 2 ^ 32
      → s.commands_issued + (count_if succeeded events + count_if failed events) < 2 ^ 32
      → ((play s events).commands_success ≡ s.commands_success + count_if succeeded events)
        × ((play s events).commands_failed ≡ s.commands_failed + count_if failed events)
        × ((play s events).commands_issued
            ≡ s.commands_issued + (count_if succeeded events + count_if failed events))
  unfolding play record_command add_evidence
  counts s [] h k l = (omega arith, omega arith, omega arith)
  counts s (command capability true ∷ events) h k l =
      let (a, b, c) =
        counts (record_command s capability true) events (omega arith) (omega arith)
          (omega arith) in
      (omega (arith, a), omega (arith, b), omega (arith, c))
  counts s (command capability false ∷ events) h k l =
      let (a, b, c) =
        counts (record_command s capability false) events (omega arith) (omega arith)
          (omega arith) in
      (omega (arith, a), omega (arith, b), omega (arith, c))
  counts s (evidence id ∷ events) h k l =
      let (a, b, c) = counts (add_evidence s id) events (omega arith) (omega arith) (omega arith) in
      (omega (arith, a), omega (arith, b), omega (arith, c))

  used :
      (s : VcpSession F) (events : List Event) (id : Text)
      → contains Text_discrete id (play s events).capabilities_used
        ≡ (uses id events || contains Text_discrete id s.capabilities_used)
  unfolding play record_command add_evidence
  used s [] id = refl
  used s (command capability true ∷ events) id =
      used (record_command s capability true) events id
      ∙ ap (λ b. uses id events || b) (contains-add Text_discrete capability id s.capabilities_used)
      ∙ or_swap (Text_discrete capability id) (uses id events) _
  used s (command capability false ∷ events) id =
      used (record_command s capability false) events id
      ∙ ap (λ b. uses id events || b) (contains-add Text_discrete capability id s.capabilities_used)
      ∙ or_swap (Text_discrete capability id) (uses id events) _
  used s (evidence e ∷ events) id = used (add_evidence s e) events id

  keeps_grant : (s : VcpSession F) (events : List Event) → (play s events).grant ≡ s.grant
  unfolding play record_command add_evidence
  keeps_grant s [] = refl
  keeps_grant s (command capability true ∷ events) =
      keeps_grant (record_command s capability true) events
  keeps_grant s (command capability false ∷ events) =
      keeps_grant (record_command s capability false) events
  keeps_grant s (evidence e ∷ events) = keeps_grant (add_evidence s e) events

-- What the receipt of a session says of its events.
pub record IsAccount {F : Type 0} (grant : VcpCapabilityGrant F) (events : List Event)
    (r : VcpSessionReceipt) : Type 0 where
  pub grant_id : r.grant_id ≡ grant.grant_id
  pub successes : r.commands_success ≡ count_if succeeded events
  pub failures : r.commands_failed ≡ count_if failed events
  pub balance : r.commands_issued ≡ r.commands_success + r.commands_failed
  pub capabilities : (id : Text) → contains Text_discrete id r.capabilities_used ≡ uses id events

-- The receipt of a session of fewer than 2 ^ 32 commands counts its successes and its failures, the
-- commands issued are the two together, and the capabilities used are exactly those of the commands.
pub close-IsAccount :
    {F : Type 0} (u : Text) (start now : ℕ) (grant : VcpCapabilityGrant F) (events : List Event)
    (outcome : VcpSessionOutcome)
    → count_if succeeded events + count_if failed events < 2 ^ 32
    → IsAccount grant events (close u now (play (new_session start grant) events) outcome)
unfolding close new_session contains
close-IsAccount u start now grant events outcome h =
    let (a, b, c) =
      counts (new_session start grant) events (omega (arith, h)) (omega (arith, h))
        (omega (arith, h)) in
    record {
      grant_id = ap (λ x. x.grant_id) (keeps_grant (new_session start grant) events);
      successes = omega (arith, a);
      failures = omega (arith, b);
      balance = omega (arith, a, b, c);
      capabilities = λ id. used (new_session start grant) events id ∙ or_false (uses id events);
    }
