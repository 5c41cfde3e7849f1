-- ===== src/Mesh/Codec.antt =====
-- The types, `encode` and `decode` of sovereign-types/src/mesh_envelope.rs.
use sovereign_stack.Base.{
  ℕ, ◌+◌, ◌-◌, ◌*◌, ◌/◌, ◌%◌, min, Option, none, some, List, [], ◌∷◌, ◌++◌, Result, ok, err, ◌>>=◌,
  ok_or, guard, ◌>>◌, not, ltb, ◌==◌, if◌then◌else◌, length, take, drop, replicate,
}

abbrev pub version_1 : ℕ
version_1 = 1

abbrev pub max_bytes : ℕ
max_bytes = 136

abbrev pub header_bytes : ℕ
header_bytes = 102

abbrev pub body_budget : ℕ
body_budget = max_bytes - header_bytes

pub data OsoMeshKind : Type 0 where
  heartbeat lifecycle_cmd mesh_join mesh_leave orca_relay : OsoMeshKind

-- `kind as u8`, by the discriminants of the `repr(u8)` enum
abbrev pub to_u8 : OsoMeshKind → ℕ
to_u8 OsoMeshKind.heartbeat = 1
to_u8 OsoMeshKind.lifecycle_cmd = 2
to_u8 OsoMeshKind.mesh_join = 3
to_u8 OsoMeshKind.mesh_leave = 4
to_u8 OsoMeshKind.orca_relay = 5

unfoldable pub from_u8 : ℕ → Option OsoMeshKind
from_u8 v =
    if v == 1
    then some OsoMeshKind.heartbeat
    else if v == 2
    then some OsoMeshKind.lifecycle_cmd
    else if v == 3
    then some OsoMeshKind.mesh_join
    else if v == 4
    then some OsoMeshKind.mesh_leave
    else if v == 5
    then some OsoMeshKind.orca_relay
    else none

pub data OsoMeshBody : Type 0 where
  heartbeat : (stage battery : ℕ) → OsoMeshBody
  lifecycle_cmd : (transition reason_code : ℕ) → OsoMeshBody
  mesh_join : (agent_id_hint : List ℕ) (tier : ℕ) → OsoMeshBody
  mesh_leave : (reason : ℕ) → OsoMeshBody
  orca_relay : (payload : List ℕ) → OsoMeshBody

pub data MeshError : Type 0 where
  buffer_too_short body_too_short : MeshError
  unsupported_version unknown_kind : ℕ → MeshError
  payload_overflow : (total max : ℕ) → MeshError

abbrev pub kind_of : OsoMeshBody → OsoMeshKind
kind_of (OsoMeshBody.heartbeat _ _) = OsoMeshKind.heartbeat
kind_of (OsoMeshBody.lifecycle_cmd _ _) = OsoMeshKind.lifecycle_cmd
kind_of (OsoMeshBody.mesh_join _ _) = OsoMeshKind.mesh_join
kind_of (OsoMeshBody.mesh_leave _) = OsoMeshKind.mesh_leave
kind_of (OsoMeshBody.orca_relay _) = OsoMeshKind.orca_relay

unfoldable pub encode_body : OsoMeshBody → List ℕ
encode_body (OsoMeshBody.heartbeat stage battery) = stage ∷ battery ∷ []
encode_body (OsoMeshBody.lifecycle_cmd transition reason_code) = transition ∷ reason_code ∷ []
encode_body (OsoMeshBody.mesh_join hint tier) = hint ++ tier ∷ []
encode_body (OsoMeshBody.mesh_leave reason) = reason ∷ []
encode_body (OsoMeshBody.orca_relay payload) = take (min (length payload) body_budget) payload

-- The tests on `data.len()` are the patterns.
unfoldable pub decode_body : OsoMeshKind → List ℕ → Result MeshError OsoMeshBody
decode_body OsoMeshKind.heartbeat (a ∷ b ∷ _) = ok (OsoMeshBody.heartbeat a b)
decode_body OsoMeshKind.heartbeat _ = err body_too_short
decode_body OsoMeshKind.lifecycle_cmd (a ∷ b ∷ _) = ok (OsoMeshBody.lifecycle_cmd a b)
decode_body OsoMeshKind.lifecycle_cmd _ = err body_too_short
decode_body OsoMeshKind.mesh_join (a ∷ b ∷ c ∷ d ∷ t ∷ _) =
    ok (OsoMeshBody.mesh_join (a ∷ b ∷ c ∷ d ∷ []) t)
decode_body OsoMeshKind.mesh_join _ = err body_too_short
decode_body OsoMeshKind.mesh_leave (a ∷ _) = ok (OsoMeshBody.mesh_leave a)
decode_body OsoMeshKind.mesh_leave _ = err body_too_short
decode_body OsoMeshKind.orca_relay bytes = ok (OsoMeshBody.orca_relay bytes)

pub record OsoMeshEnvelope : Type 0 where
  pub version : ℕ
  pub kind : OsoMeshKind
  pub ts_secs : ℕ
  pub pubkey : List ℕ
  pub signature : List ℕ
  pub body : OsoMeshBody

-- exactly 64 bytes: the first 64 of the signature, or the signature and zeros behind it
unfoldable pub sig64 : OsoMeshEnvelope → List ℕ
sig64 e = take n e.signature ++ replicate (64 - n) 0
  where
    n : ℕ
    n = min (length e.signature) 64

-- `u32::to_be_bytes`
abbrev pub be_bytes : ℕ → List ℕ
be_bytes n = n / 16777216 % 256 ∷ n / 65536 % 256 ∷ n / 256 % 256 ∷ n % 256 ∷ []

-- `u32::from_be_bytes`
abbrev pub from_be_bytes : List ℕ → ℕ
from_be_bytes (a ∷ b ∷ c ∷ d ∷ _) = a * 16777216 + b * 65536 + c * 256 + d
from_be_bytes _ = 0

unfoldable pub signing_bytes : ℕ → OsoMeshKind → ℕ → List ℕ → List ℕ → List ℕ
signing_bytes version kind ts_secs pubkey body_bytes =
    version ∷ to_u8 kind ∷ (be_bytes ts_secs ++ (pubkey ++ body_bytes))

-- the bytes that `fingerprint` hands to SHA-256 (`hex::encode(sha256(…))`)
unfoldable pub fingerprint : (List ℕ → List ℕ) → OsoMeshEnvelope → List ℕ
unfolding signing_bytes encode_body
fingerprint sha256_hex e =
    sha256_hex
      (signing_bytes e.version e.kind e.ts_secs e.pubkey (encode_body e.body) ++ e.signature)

unfoldable pub encode : OsoMeshEnvelope → Result MeshError (List ℕ)
unfolding encode_body sig64
encode e =
    let body_bytes = encode_body e.body in
    let total = header_bytes + length body_bytes in
    if ltb max_bytes total
    then err (payload_overflow total max_bytes)
    else ok
        (e.version ∷ to_u8 e.kind ∷ (be_bytes e.ts_secs ++ (e.pubkey ++ (sig64 e ++ body_bytes))))

-- `&buf[from..to]`
abbrev pub slice : ℕ → ℕ → List ℕ → List ℕ
slice from to buf = take (to - from) (drop from buf)

-- `buf[i]`, read after the test on the length
abbrev pub byte : List ℕ → ℕ → ℕ
byte buf i = elim (drop i buf) [ [] ↦ 0 | b ∷ _ ↦ b ]

-- `Self { version, kind, ts_secs, pubkey, signature, body }` of `decode`
abbrev pub assemble : List ℕ → OsoMeshKind → OsoMeshBody → OsoMeshEnvelope
assemble buf kind body = record {
  version = byte buf 0;
  kind = kind;
  ts_secs = from_be_bytes (slice 2 6 buf);
  pubkey = slice 6 38 buf;
  signature = slice 38 102 buf;
  body = body;
}

unfoldable pub decode : List ℕ → Result MeshError OsoMeshEnvelope
decode buf = do
  guard (not (ltb (length buf) header_bytes)) buffer_too_short
  guard (byte buf 0 == version_1) (unsupported_version (byte buf 0))
  kind ← ok_or (from_u8 (byte buf 1)) (unknown_kind (byte buf 1))
  body ← decode_body kind (drop 102 buf)
  ok (assemble buf kind body)
