-- ===== src/Mesh/Bounds.antt =====
-- What `encode` writes fits the radio budget, and what `decode` of
-- sovereign-types/src/mesh_envelope.rs accepts is well formed.
use sovereign_stack.Base.{
  ℕ, ◌+◌, ◌-◌, ◌≤◌, ◌<◌, ◌≡◌, refl, ap, List, ◌++◌, some, ok, err, ltb, true, false, arith, length,
  drop, Result, ok_or, guard, ◌>>=◌, ◌>>◌, not, ◌==◌, Bool, Option, none, bind-eq-ok, length-append,
  length-take, length-drop,
}
use sovereign_stack.Mesh.Codec.{
  OsoMeshKind, OsoMeshBody, OsoMeshEnvelope, MeshError, buffer_too_short, unsupported_version,
  unknown_kind, assemble, version_1, max_bytes, header_bytes, kind_of, encode_body, decode_body,
  from_u8, sig64, encode, decode, slice, byte,
}
use sovereign_stack.Mesh.RoundTrip.{
  HintFits, frame, encode-eq-frame, length-encode_body-le, length-sig64,
}

-- An envelope with a key of 32 bytes and, for a join, a hint of 4 is never refused by `encode`: the
-- bytes are version, kind, stamp, key, signature and body in this order, 102 before the body, and
-- at most 136 in all.
pub encode_fits :
    (e : OsoMeshEnvelope)
    → HintFits e.body
    → length e.pubkey ≡ 32
    → (encode e ≡ ok (frame e))
      × (length (frame e) ≡ header_bytes + length (encode_body e.body))
      × (length (frame e) ≤ max_bytes)
encode_fits e h k =
    (encode-eq-frame e h, total, omega (arith, total, length-encode_body-le e.body h))
  where
    total : length (frame e) ≡ header_bytes + length (encode_body e.body)
    total = omega (
      arith,
      length-append e.pubkey (sig64 e ++ encode_body e.body),
      length-append (sig64 e) (encode_body e.body),
      length-sig64 e,
    )

kind_of-decode_body :
    (k : OsoMeshKind) (bytes : List ℕ) {b : OsoMeshBody}
    → decode_body k bytes ≡ ok b
    → k ≡ kind_of b
unfolding decode_body
kind_of-decode_body k bytes e = ground arith

HintFits-decode_body :
    (k : OsoMeshKind) (bytes : List ℕ) {b : OsoMeshBody} → decode_body k bytes ≡ ok b → HintFits b
unfolding decode_body
HintFits-decode_body k bytes e = ground arith

length-slice :
    (from to : ℕ) (buf : List ℕ)
    → from ≤ to
    → to ≤ length buf
    → length (slice from to buf) + from ≡ to
length-slice from to buf h k =
    omega (arith, length-take (to - from) (drop from buf), length-drop from buf)

-- The chain of `decode`, for any tests and reads.
chain :
    {K B E : Type 0} (b₁ b₂ : Bool) (e₁ e₂ e₃ : MeshError) (found : Option K)
    (read : K → Result MeshError B) (build : K → B → E) {e : E}
    → (do guard b₁ e₁; guard b₂ e₂; k ← ok_or found e₃; b ← read k; ok (build k b)) ≡ ok e
    → (k : K) × (b : B) × (b₁ ≡ true)
      × (b₂ ≡ true)
      × (found ≡ some k)
      × (read k ≡ ok b)
      × (build k b ≡ e)
chain false b₂ e₁ e₂ e₃ found read build h = cc
chain true false e₁ e₂ e₃ found read build h = cc
chain true true e₁ e₂ e₃ none read build h = cc
chain true true e₁ e₂ e₃ (some k) read build h =
    let (b, p, q) = bind-eq-ok (read k) (λ b. ok (build k b)) h in (k, b, refl, refl, refl, p, (cc))

record Parts (buf : List ℕ) (e : OsoMeshEnvelope) : Type 0 where
  whole : header_bytes ≤ length buf
  first : e.version ≡ version_1
  second : from_u8 (byte buf 1) ≡ some e.kind
  rest : decode_body e.kind (drop 102 buf) ≡ ok e.body
  key : e.pubkey ≡ slice 6 38 buf
  signed : e.signature ≡ slice 38 102 buf

decode-Parts : (buf : List ℕ) {e : OsoMeshEnvelope} → decode buf ≡ ok e → Parts buf e
unfolding decode
decode-Parts buf h =
    let (k, b, long, current, tagged, decoded, q) =
      chain (not (ltb (length buf) header_bytes)) (byte buf 0 == version_1) buffer_too_short
        (unsupported_version (byte buf 0)) (unknown_kind (byte buf 1)) (from_u8 (byte buf 1))
        (λ k. decode_body k (drop 102 buf)) (assemble buf) h in
    record {
      whole = ground (arith, long);
      first = ground (arith, current, q);
      second = ground (arith, tagged, q);
      rest = ground (arith, decoded, q);
      key = ground (arith, q);
      signed = ground (arith, q);
    }

-- What `decode` accepts.
pub record IsReceived (e : OsoMeshEnvelope) : Type 0 where
  pub current : e.version ≡ version_1
  pub tagged : e.kind ≡ kind_of e.body
  pub hint : HintFits e.body
  pub key : length e.pubkey ≡ 32
  pub signed : length e.signature ≡ 64

-- A buffer that `decode` accepts holds a whole header, and the envelope has version 1, the kind of
-- its body, a key of 32 bytes, a signature of 64 and, for a join, a hint of 4.
pub decode-IsReceived :
    (buf : List ℕ) {e : OsoMeshEnvelope}
    → decode buf ≡ ok e
    → (header_bytes ≤ length buf) × IsReceived e
decode-IsReceived buf {e} h = (
  parts.whole,
  record {
    current = parts.first;
    tagged = kind_of-decode_body e.kind (drop 102 buf) parts.rest;
    hint = HintFits-decode_body e.kind (drop 102 buf) parts.rest;
    key = omega (arith, ap length parts.key, length-slice 6 38 buf, parts.whole);
    signed = omega (arith, ap length parts.signed, length-slice 38 102 buf, parts.whole);
  },
)
  where
    parts : Parts buf e
    parts = decode-Parts buf h

-- A buffer that is shorter than the header is reported as such, whatever it holds.
pub decode_short : (buf : List ℕ) → length buf < header_bytes → decode buf ≡ err buffer_too_short
unfolding decode
decode_short buf h = ground arith
