-- ===== src/Dip/Envelope.antt =====
-- dip/src/envelope.rs: the signed envelope around what is routed. JSON texts and signatures are
-- parameters; `V` stands for JSON values. The UUID and the clock are arguments.
use sovereign_stack.Base.{
  ℕ, not, [], ◌∷◌, ◌++◌, Text, text, Result, ok, ◌>>=◌, ◌>>◌, guard, map_err,
}
use sovereign_stack.Runtime.Identity.{IdentityChain, SovereignError, validate_chain}
use sovereign_stack.Shared.Merkle.{Hashing, merkle_root}
use sovereign_stack.Twin.Simulation.{text_of}
use sovereign_stack.Dip.Router.{DipAddress, DipEnvelope, is_expired}

pub data DipKind : Type 0 where
  capability message evidence receipt event claim : DipKind

-- `DipError`, as far as envelopes give it.
pub data EnvelopeError : Type 0 where
  expired incomplete_identity invalid_signature : EnvelopeError
  sovereign : Text → EnvelopeError

-- The fields of `DipEnvelope` that routing reads, and the others.
pub record SignedEnvelope (V : Type 0) : Type 0 where
  pub version : Text
  pub routed : DipEnvelope
  pub identity : IdentityChain
  pub kind : DipKind
  pub payload : V
  pub merkle_root : Text
  pub signature : Text

pub record EnvelopeServices (V : Type 0) : Type 0 where
  pub hashing : Hashing
  -- the text and the private key
  pub sign : Text → Text → Result EnvelopeError Text
  -- the text, the signature and the public key
  pub verify : Text → Text → Text → Result EnvelopeError (Unit {0})
  pub string_json : Text → Text
  pub number_json : ℕ → Text
  pub address_json : DipAddress → Text
  pub identity_json : IdentityChain → Text
  pub kind_json : DipKind → Text
  pub value_json : V → Text

-- The arguments of `build`.
pub record Draft (V : Type 0) : Type 0 where
  pub origin : DipAddress
  pub destination : DipAddress
  pub identity : IdentityChain
  pub kind : DipKind
  pub payload : V
  pub ttl_secs : ℕ
  pub private_key : Text

abbrev pub incomplete : SovereignError → EnvelopeError
incomplete e = incomplete_identity

module _ {V : Type 0} (s : EnvelopeServices V) where
  -- the fields of the root, in the order of their keys
  unfoldable pub envelope_root : (message_id : Text) (now : ℕ) → Draft V → Text
  envelope_root message_id now d = text_of (
      merkle_root s.hashing (
        (text "destination", s.address_json d.destination)
        ∷ (text "identity", s.identity_json d.identity)
        ∷ (text "kind", s.kind_json d.kind)
        ∷ (text "message_id", s.string_json message_id)
        ∷ (text "origin", s.address_json d.origin)
        ∷ (text "payload", s.value_json d.payload)
        ∷ (text "timestamp", s.number_json now)
        ∷ (text "ttl", s.number_json d.ttl_secs)
        ∷ (text "version", s.string_json (text "dip/1"))
        ∷ []))

  abbrev pub envelope_of :
      (message_id : Text) (now : ℕ) → Draft V → (root signature : Text) → SignedEnvelope V
  envelope_of message_id now d root signature = record {
    version = text "dip/1";
    routed = record {
      message_id = message_id;
      timestamp = now;
      ttl = d.ttl_secs;
      origin = d.origin;
      destination = d.destination;
      routing = [];
    };
    identity = d.identity;
    kind = d.kind;
    payload = d.payload;
    merkle_root = root;
    signature = signature;
  }

  -- `DipEnvelope::build`
  unfoldable pub build_envelope :
      (uuid : Text) (now : ℕ) → Draft V → Result EnvelopeError (SignedEnvelope V)
  build_envelope uuid now d =
      map_err incomplete (validate_chain d.identity)
      >> (let message_id = text "dip:" ++ uuid in
          let root = envelope_root message_id now d in
          s.sign root d.private_key >>= λ signature.
          ok (envelope_of message_id now d root signature))

  -- `DipEnvelope::validate`
  unfoldable pub validate_envelope :
      (now : ℕ) → SignedEnvelope V → (public_key : Text) → Result EnvelopeError (Unit {0})
  validate_envelope now e public_key = do
    guard (not (is_expired now e.routed)) expired
    map_err incomplete (validate_chain e.identity)
    s.verify e.merkle_root e.signature public_key
