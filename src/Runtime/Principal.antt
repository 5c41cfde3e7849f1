-- ===== src/Runtime/Principal.antt =====
-- sovereign-runtime/src/principal.rs: the identity of a principal with its bindings.
use sovereign_stack.Base.{
  ◌≡◌, ◌≢◌, ◌↔◌, refl, Bool, true, false, not, Option, none, some, [], Text, text, is_empty,
  starts_with, starts_with_sound, starts_with-append, ==_iff, ◌++◌, ◌∷◌, length, Result, ok, err,
  ◌>>◌, guard, ◌==◌, arith,
}
use sovereign_stack.Runtime.Identity.{
  SafetyLevel, IdentityChain, SovereignError, incomplete_identity, new_chain, validate_chain,
}

pub record HardwareAttestation : Type 0 where
  pub device_did : Text
  pub hw_pubkey : Text
  pub attestation : Text
  pub nonce : Text
  pub provider : Text

pub record Principal : Type 0 where
  pub chain : IdentityChain
  pub nostr_pubkey : Option Text
  pub sui_address : Option Text
  pub ip_root_id : Option Text
  pub device_did : Option Text
  pub hw_attestation : Option HardwareAttestation
  pub safety_level : SafetyLevel

-- The errors of `RuntimeError` that `validate` returns.
pub data RuntimeError : Type 0 where
  identity : SovereignError → RuntimeError
  invalid_principal : Text → RuntimeError

unfoldable pub from_did : (principal_id agent_id u v w : Text) → Principal
unfolding new_chain
from_did principal_id agent_id u v w = record {
  chain = new_chain principal_id agent_id u v w;
  nostr_pubkey = none;
  sui_address = none;
  ip_root_id = none;
  device_did = none;
  hw_attestation = none;
  safety_level = SafetyLevel.standard;
}

unfoldable pub with_nostr : Principal → Text → Principal
with_nostr p pubkey = record p { nostr_pubkey = some pubkey }

unfoldable pub with_sui : Principal → Text → Principal
with_sui p address = record p { sui_address = some address }

unfoldable pub with_ip_root : Principal → Text → Principal
with_ip_root p event_id = record p { ip_root_id = some event_id }

unfoldable pub with_device : Principal → Text → HardwareAttestation → Principal
with_device p device_did attestation = record p {
  device_did = some device_did;
  hw_attestation = some attestation;
}

unfoldable pub with_safety : Principal → SafetyLevel → Principal
with_safety p level = record p { safety_level = level }

unfoldable pub is_hardware_bound : Principal → Bool
is_hardware_bound p = elim p.hw_attestation [ none ↦ false | some _ ↦ true ]

-- `map_err(|e| RuntimeError::Identity(..))`
abbrev pub lift_identity : Result SovereignError (Unit {0}) → Result RuntimeError (Unit {0})
lift_identity (ok u) = ok u
lift_identity (err e) = err (identity e)

abbrev pub nostr_fits : Option Text → Bool
nostr_fits none = true
nostr_fits (some key) = length key == 64

abbrev pub sui_fits : Option Text → Bool
sui_fits none = true
sui_fits (some address) = starts_with (text "0x") address

unfoldable pub validate : Principal → Result RuntimeError (Unit {0})
unfolding validate_chain
validate p = do
  lift_identity (validate_chain p.chain)
  guard (nostr_fits p.nostr_pubkey) (invalid_principal (text "nostr_pubkey must be 64-char hex"))
  guard (sui_fits p.sui_address) (invalid_principal (text "sui_address must start with 0x"))
  ok tt

abbrev pub NostrFits : Option Text → Type 0
NostrFits none = Unit
NostrFits (some key) = length key ≡ 64

abbrev pub SuiFits : Option Text → Type 0
SuiFits none = Unit
SuiFits (some address) = (rest : Text) × (address ≡ text "0x" ++ rest)

-- What a principal must have.
pub record IsComplete (p : Principal) : Type 0 where
  pub principal_id : p.chain.principal_id ≢ []
  pub agent_id : p.chain.agent_id ≢ []
  pub session_id : p.chain.session_id ≢ []
  pub nostr : NostrFits p.nostr_pubkey
  pub sui : SuiFits p.sui_address

nostr_fits_iff : (o : Option Text) → (nostr_fits o ≡ true) ↔ NostrFits o
nostr_fits_iff none = (λ e. tt, λ u. refl)
nostr_fits_iff (some key) = ==_iff (length key) 64

sui_fits_iff : (o : Option Text) → (sui_fits o ≡ true) ↔ SuiFits o
sui_fits_iff none = (λ e. tt, λ u. refl)
sui_fits_iff (some a) =
    (starts_with_sound (text "0x") a, λ (r, e). rw e (starts_with-append (text "0x") r))

non_empty_iff : (s : Text) → (not (is_empty s) ≡ true) ↔ (s ≢ [])
non_empty_iff [] = (λ e. cc, λ h. absurd (h refl))
non_empty_iff (x ∷ s) = (λ e p. cc, λ h. refl)

abbrev checks : Bool → Bool → Bool → Bool → Bool → Result RuntimeError (Unit {0})
checks a b c d e = do
  lift_identity (do
    guard a (incomplete_identity (text "principal_id"))
    guard b (incomplete_identity (text "agent_id"))
    guard c (incomplete_identity (text "session_id"))
    ok tt)
  guard d (invalid_principal (text "nostr_pubkey must be 64-char hex"))
  guard e (invalid_principal (text "sui_address must start with 0x"))
  ok tt

checks_all :
    (a b c d e : Bool)
    → checks a b c d e ≡ ok tt
    → (a ≡ true) × (b ≡ true) × (c ≡ true) × (d ≡ true) × (e ≡ true)
checks_all a b c d e h = ground arith

-- `validate` accepts a principal exactly when the three identifiers are there, the Nostr key, if
-- any, has 64 bytes, and the Sui address, if any, begins with "0x".
pub validate_iff : (p : Principal) → (validate p ≡ ok tt) ↔ IsComplete p
unfolding validate
validate_iff p = (only, enough)
  where
    only : validate p ≡ ok tt → IsComplete p
    only h =
        let (a, b, c, d, e) =
          checks_all _ _ _ (nostr_fits p.nostr_pubkey) (sui_fits p.sui_address) h in
        record {
          principal_id = (non_empty_iff p.chain.principal_id).0 a;
          agent_id = (non_empty_iff p.chain.agent_id).0 b;
          session_id = (non_empty_iff p.chain.session_id).0 c;
          nostr = (nostr_fits_iff p.nostr_pubkey).0 d;
          sui = (sui_fits_iff p.sui_address).0 e;
        }

    enough : IsComplete p → validate p ≡ ok tt
    enough c = rw (
      (non_empty_iff p.chain.principal_id).1 c.principal_id,
      (non_empty_iff p.chain.agent_id).1 c.agent_id,
      (non_empty_iff p.chain.session_id).1 c.session_id,
      (nostr_fits_iff p.nostr_pubkey).1 c.nostr,
      (sui_fits_iff p.sui_address).1 c.sui,
    )
