-- ===== src/Mesh/Examples.antt =====
-- Envelopes of sovereign-types/src/mesh_envelope.rs at concrete values.
use sovereign_stack.Base.{◌≤◌, ◌≡◌, refl, [], ◌∷◌, ok, ◌>>=◌, arith, length, replicate}
use sovereign_stack.Mesh.Codec.{
  OsoMeshKind, OsoMeshBody, OsoMeshEnvelope, header_bytes, max_bytes, encode, decode, encode_body,
  decode_body, from_u8, sig64,
}
use sovereign_stack.Mesh.RoundTrip.{received, frame, decode-encode}
use sovereign_stack.Mesh.Bounds.{IsReceived, encode_fits, decode-IsReceived}

abbrev join : OsoMeshEnvelope
join = record {
  version = 1;
  kind = OsoMeshKind.mesh_join;
  ts_secs = 1700000000;
  pubkey = replicate 32 7;
  signature = 9 ∷ 8 ∷ [];
  body = OsoMeshBody.mesh_join (1 ∷ 2 ∷ 3 ∷ 4 ∷ []) 5;
}

abbrev relay : OsoMeshEnvelope
relay = record {
  version = 1;
  kind = OsoMeshKind.orca_relay;
  ts_secs = 0;
  pubkey = replicate 32 7;
  signature = replicate 64 1;
  body = OsoMeshBody.orca_relay (replicate 40 6);
}

decode-encode_example : (encode join >>= decode) ≡ ok (received join)
decode-encode_example = decode-encode join (ground arith) refl

-- A payload of 40 bytes arrives as 34.
relay_is_cut :
    (encode relay >>= decode) ≡ ok (record relay { body = OsoMeshBody.orca_relay (replicate 34 6) })
unfolding encode decode from_u8 decode_body
relay_is_cut = refl

encode_fits_example : length (frame relay) ≤ max_bytes
encode_fits_example = (encode_fits relay tt refl).2

frame_decodes : decode (frame join) ≡ ok (received join)
unfolding decode from_u8 decode_body encode_body received sig64
frame_decodes = refl

decode-IsReceived_example : (header_bytes ≤ length (frame join)) × IsReceived (received join)
decode-IsReceived_example = decode-IsReceived (frame join) frame_decodes
