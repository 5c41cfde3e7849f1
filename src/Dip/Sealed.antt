-- ===== src/Dip/Sealed.antt =====
-- What the signature of an envelope of dip/src/envelope.rs is worth.
use sovereign_stack.Base.{
  ℕ, ◌+◌, ◌*◌, ◌%◌, ◌^◌, ◌≤◌, ◌≡◌, ◌↔◌, refl, sym, ◌∙◌, false, ◌++◌, Text, text, ltb, ok, map_err,
  map_err-eq-ok, bind-eq-ok, ok-injective, arith,
}
use sovereign_stack.Runtime.Identity.{validate_chain}
use sovereign_stack.Dip.Router.{DipAddress, is_expired}
use sovereign_stack.Dip.Envelope.{
  DipKind, EnvelopeServices, SignedEnvelope, Draft, incomplete, envelope_root, envelope_of,
  build_envelope, validate_envelope,
}

module _ {V : Type 0} (s : EnvelopeServices V) where
  -- An envelope as it is built from a draft.
  pub record IsSealed (uuid : Text) (now : ℕ) (d : Draft V) (e : SignedEnvelope V) : Type 0 where
    pub identified : validate_chain d.identity ≡ ok tt
    pub signature : Text
    pub signed : s.sign (envelope_root s (text "dip:" ++ uuid) now d) d.private_key ≡ ok signature
    pub envelope :
        e
        ≡ envelope_of s
            (text "dip:" ++ uuid)
            now
            d
            (envelope_root s (text "dip:" ++ uuid) now d)
            signature

  -- An envelope is built exactly for a complete identity and a key that can sign.
  pub build_envelope_iff :
      (uuid : Text) (now : ℕ) (d : Draft V) (e : SignedEnvelope V)
      → (build_envelope s uuid now d ≡ ok e) ↔ IsSealed uuid now d e
  unfolding build_envelope
  build_envelope_iff uuid now d e = (
    λ h.
        let (u, p, h1) = bind-eq-ok (map_err incomplete (validate_chain d.identity)) _ h in
        let (signature, k, h2) = bind-eq-ok (s.sign _ d.private_key) _ h1 in
        record {
          identified = map_err-eq-ok _ _ p;
          signature = signature;
          signed = k;
          envelope = sym (ok-injective h2);
        },
    λ v. rw (v.identified, v.signed, v.envelope) refl,
  )

  -- A key pair as Ed25519 documents it: what the private key signs, the public key verifies.
  abbrev pub IsKeyPair : (private_key public_key : Text) → Type 0
  IsKeyPair private_key public_key =
      (m g : Text) → s.sign m private_key ≡ ok g → s.verify m g public_key ≡ ok tt

  -- An envelope that was built validates under the public key of its sender, as long as the clock
  -- has not passed its time and time to live.
  pub validate-build :
      (uuid : Text) (now time : ℕ) (d : Draft V) (e : SignedEnvelope V) (public_key : Text)
      → IsKeyPair d.private_key public_key
      → build_envelope s uuid now d ≡ ok e
      → time ≤ (now + d.ttl_secs * 1000) % 2 ^ 64
      → validate_envelope s time e public_key ≡ ok tt
  unfolding validate_envelope is_expired
  validate-build uuid now time d e public_key pair h early =
      let v = (build_envelope_iff uuid now d e).0 h in
      let live : ltb ((now + d.ttl_secs * 1000) % 2 ^ 64) time ≡ false = ground (arith, early) in
      let verified = pair _ _ v.signed in rw (v.envelope, live, v.identified, verified) refl

  abbrev pub altered :
      SignedEnvelope V
      → (message_id : Text) (destination : DipAddress) (kind : DipKind) (payload : V)
      → SignedEnvelope V
  altered e message_id destination kind payload = record e {
    routed = record e.routed { message_id = message_id; destination = destination };
    kind = kind;
    payload = payload;
  }

  -- The root is not computed again.
  validate_altered :
      (time : ℕ) (e : SignedEnvelope V) (message_id : Text) (destination : DipAddress)
      (kind : DipKind) (payload : V) (public_key : Text)
      → validate_envelope s time (altered e message_id destination kind payload) public_key
        ≡ validate_envelope s time e public_key
  unfolding validate_envelope is_expired
  validate_altered time e message_id destination kind payload public_key = refl

  -- An envelope that was built and then given any other message id, destination, kind and payload
  -- on its way validates under its sender's public key all the same, within its time to live.
  pub altered_validates :
      (uuid : Text) (now time : ℕ) (d : Draft V) (e : SignedEnvelope V) (public_key : Text)
      → IsKeyPair d.private_key public_key
      → build_envelope s uuid now d ≡ ok e
      → time ≤ (now + d.ttl_secs * 1000) % 2 ^ 64
      → (message_id : Text) (destination : DipAddress) (kind : DipKind) (payload : V)
      → validate_envelope s time (altered e message_id destination kind payload) public_key ≡ ok tt
  altered_validates uuid now time d e public_key pair h early message_id destination kind payload =
      validate_altered time e message_id destination kind payload public_key
      ∙ validate-build uuid now time d e public_key pair h early
