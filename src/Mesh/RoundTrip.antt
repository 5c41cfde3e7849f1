-- ===== src/Mesh/RoundTrip.antt =====
-- `decode` after `encode` of sovereign-types/src/mesh_envelope.rs.
use sovereign_stack.Base.{
  ℕ, ◌+◌, ◌-◌, ◌≤◌, ◌<◌, min, ◌≡◌, refl, ap, ◌∙◌, some, List, [], ◌∷◌, ◌++◌, ok, ◌>>=◌, ltb, false,
  arith, length, take, drop, replicate, length-append, length-take, length-replicate, take-min,
  take-append_of, drop-append_of, drop-add,
}
use sovereign_stack.Mesh.Codec.{
  OsoMeshKind, OsoMeshBody, OsoMeshEnvelope, version_1, body_budget, kind_of, encode_body,
  decode_body, from_u8, to_u8, be_bytes, from_be_bytes, sig64, encode, decode, slice,
}

-- The invariants that the Rust types give (array lengths, ranges), and those of an envelope
-- that this version builds: version 1, and the kind of its body.
pub record IsBuilt (e : OsoMeshEnvelope) : Type 0 where
  pub current : e.version ≡ version_1
  pub tagged : e.kind ≡ kind_of e.body
  pub stamp : e.ts_secs < 4294967296
  pub key : length e.pubkey ≡ 32

abbrev pub HintFits : OsoMeshBody → Type 0
HintFits (OsoMeshBody.mesh_join hint _) = length hint ≡ 4
HintFits _ = Unit {0}

-- What a receiver gets of a body: a relayed payload is cut at the budget.
abbrev pub cut : OsoMeshBody → OsoMeshBody
cut (OsoMeshBody.orca_relay payload) = OsoMeshBody.orca_relay (take body_budget payload)
cut b = b

pub length-sig64 : (e : OsoMeshEnvelope) → length (sig64 e) ≡ 64
unfolding sig64
length-sig64 e =
    let n : ℕ = min (length e.signature) 64 in
    omega (
      arith,
      length-append (take n e.signature) (replicate (64 - n) 0),
      length-take n e.signature,
      length-replicate {A = ℕ} (64 - n) 0,
    )

decode_body-encode_body :
    (b : OsoMeshBody) → HintFits b → decode_body (kind_of b) (encode_body b) ≡ ok (cut b)
unfolding decode_body encode_body
decode_body-encode_body (OsoMeshBody.heartbeat s b) h = refl
decode_body-encode_body (OsoMeshBody.lifecycle_cmd s b) h = refl
decode_body-encode_body (OsoMeshBody.mesh_join (a ∷ b ∷ c ∷ d ∷ []) t) h = refl
decode_body-encode_body (OsoMeshBody.mesh_join _ t) h = absurd (omega arith)
decode_body-encode_body (OsoMeshBody.mesh_leave r) h = refl
decode_body-encode_body (OsoMeshBody.orca_relay p) h =
    ap (λ q. ok (OsoMeshBody.orca_relay q)) (take-min body_budget p)

from_u8-to_u8 : (k : OsoMeshKind) → from_u8 (to_u8 k) ≡ some k
unfolding from_u8
from_u8-to_u8 OsoMeshKind.heartbeat = refl
from_u8-to_u8 _ = refl

from_be_bytes-be_bytes : (n : ℕ) → n < 4294967296 → from_be_bytes (be_bytes n) ≡ n
from_be_bytes-be_bytes n h = omega arith

pub length-encode_body-le : (b : OsoMeshBody) → HintFits b → length (encode_body b) ≤ body_budget
unfolding encode_body
length-encode_body-le (OsoMeshBody.heartbeat s b) h = omega arith
length-encode_body-le (OsoMeshBody.lifecycle_cmd s b) h = omega arith
length-encode_body-le (OsoMeshBody.mesh_join hint t) h = omega (arith, length-append hint (t ∷ []))
length-encode_body-le (OsoMeshBody.mesh_leave r) h = omega arith
length-encode_body-le (OsoMeshBody.orca_relay p) h =
    omega (arith, length-take (min (length p) body_budget) p)

-- The bytes that `encode` writes, with the header taken apart.
abbrev pub frame : OsoMeshEnvelope → List ℕ
frame e =
    e.version ∷ to_u8 e.kind ∷ (be_bytes e.ts_secs ++ (e.pubkey ++ (sig64 e ++ encode_body e.body)))

pub encode-eq-frame : (e : OsoMeshEnvelope) → HintFits e.body → encode e ≡ ok (frame e)
unfolding encode
encode-eq-frame e h = ground (arith, length-encode_body-le e.body h)

-- The slices of a buffer that begins with a header of the right lengths.
module _ (v k t₁ t₂ t₃ t₄ : ℕ) (p s rest : List ℕ) (hp : length p ≡ 32) (hs : length s ≡ 64) where
  abbrev buf : List ℕ
  buf = v ∷ k ∷ t₁ ∷ t₂ ∷ t₃ ∷ t₄ ∷ (p ++ (s ++ rest))

  drop_key : drop 38 buf ≡ s ++ rest
  drop_key = drop-append_of 32 p (s ++ rest) hp

  drop_header : drop 102 buf ≡ rest
  drop_header = drop-add 38 64 buf ∙ (ap (drop 64) drop_key ∙ drop-append_of 64 s rest hs)

  slice_key : slice 6 38 buf ≡ p
  slice_key = take-append_of 32 p (s ++ rest) hp

  slice_signature : slice 38 102 buf ≡ s
  slice_signature = ap (take 64) drop_key ∙ take-append_of 64 s rest hs

  length-buf : length buf ≡ 102 + length rest
  length-buf = omega (arith, length-append p (s ++ rest), length-append s rest)

  long_enough : ltb (length buf) 102 ≡ false
  long_enough = ground (arith, length-buf)

  decode-buf :
      {kind : OsoMeshKind} {body : OsoMeshBody}
      → v ≡ version_1
      → from_u8 k ≡ some kind
      → decode_body kind rest ≡ ok body
      → decode buf
        ≡ ok (record {
          version = v;
          kind = kind;
          ts_secs = from_be_bytes (t₁ ∷ t₂ ∷ t₃ ∷ t₄ ∷ []);
          pubkey = p;
          signature = s;
          body = body;
        })
  unfolding decode
  decode-buf hv hk hb = rw (long_enough, hv, hk, drop_header, hb, slice_key, slice_signature)

-- What a receiver gets of an envelope.
unfoldable pub received : OsoMeshEnvelope → OsoMeshEnvelope
received e = record e { signature = sig64 e; body = cut e.body }

-- An envelope of this version whose kind is that of its body, with a key of 32 bytes, a stamp in
-- range and, for a join, a hint of 4 bytes, is encoded, and decodes to itself, up to the signature
-- filled up (or cut) to 64 bytes and the payload of a relay cut at the body budget.
pub decode-encode :
    (e : OsoMeshEnvelope) → IsBuilt e → HintFits e.body → (encode e >>= decode) ≡ ok (received e)
unfolding received
decode-encode e v h = rw (encode-eq-frame e h) (
    decode-buf e.version (to_u8 e.kind) _ _ _ _ e.pubkey (sig64 e) (encode_body e.body) v.key
      (length-sig64 e) v.current (from_u8-to_u8 e.kind)
      (rw v.tagged (decode_body-encode_body e.body h))
    ∙ ap (λ t. ok (record (received e) { ts_secs = t })) (from_be_bytes-be_bytes e.ts_secs v.stamp))
