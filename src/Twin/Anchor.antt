-- ===== src/Twin/Anchor.antt =====
-- twin-protocol/src/sui_anchor.rs and the stub of sui_rpc.rs: minting an NFT for a scene receipt. The
-- Sui node is a parameter, as are the conversions of `f32` to `u32`.
use sovereign_stack.Base.{ℕ, Option, none, some, ◌++◌, Text, text, take, drop, Result, ok, err}
use sovereign_stack.Shared.Merkle.{Hashing, hash_bytes}
use sovereign_stack.Twin.Asset.{LicenseType, exclusive, non_exclusive, open_access, research_only}
use sovereign_stack.Twin.Receipts.{SceneReceipt, with_sui}

pub data SuiTxStatus : Type 0 where
  success failure pending : SuiTxStatus

pub record SuiMintRequest : Type 0 where
  pub kind : Text
  pub sender : Text
  pub twin_id : Text
  pub merkle_root : Text
  pub splat_hash : Text
  pub f1_score_x1000 : ℕ
  pub coverage_x100 : ℕ
  pub license_type : ℕ
  pub owner_bps : ℕ
  pub protocol_bps : ℕ
  pub receipt_id : Text
  pub gas_budget : ℕ

pub record SuiMintResponse : Type 0 where
  pub tx_digest : Text
  pub object_id : Text
  pub gas_used : ℕ
  pub epoch : ℕ
  pub status : SuiTxStatus

pub record SuiAnchor : Type 0 where
  pub rpc_url : Text
  pub address : Text
  pub key : Text

-- `decode_key` is the base64 decoding of a 32-byte seed; `mint_real` is the Sui node at a URL, which
-- signs with the seed and answers with a digest and an object id.
pub record SuiNode (F : Type 0) : Type 0 where
  -- `(x * 1000.0) as u32` and `(x * 100.0) as u32`
  pub thousandths : F → ℕ
  pub hundredths : F → ℕ
  pub decode_key : Text → Option Text
  pub mint_real : (rpc_url seed : Text) → SuiMintRequest → Result Text (Text × Text)

unfoldable pub license_code : LicenseType → ℕ
license_code exclusive = 0
license_code non_exclusive = 1
license_code open_access = 2
license_code research_only = 3

-- `&hash[7..39]` and `&hash[7..23]`: the digest and the object id
unfoldable pub stub_mint : Hashing → (twin_id merkle_root : Text) → Text × Text
stub_mint h twin_id merkle_root = (
  text "sui_tx:" ++ take 16 (drop 7 (hash_bytes h merkle_root)),
  text "0x" ++ take 32 (drop 7 (hash_bytes h twin_id)),
)

module _ {F : Type 0} (h : Hashing) (node : SuiNode F) where
  unfoldable pub from_scene_receipt : SceneReceipt F → (sender_address : Text) → SuiMintRequest
  from_scene_receipt receipt sender_address = record {
    kind = text "twin_mint";
    sender = sender_address;
    twin_id = receipt.twin_id;
    merkle_root = receipt.merkle_root;
    splat_hash = receipt.splat_hash;
    f1_score_x1000 = node.thousandths receipt.f1_score;
    coverage_x100 = node.hundredths receipt.coverage_pct;
    license_type = license_code receipt.license_type;
    owner_bps = 7000;
    protocol_bps = 250;
    receipt_id = receipt.receipt_id;
    gas_budget = 10000000;
  }

  -- `SuiRpcClient::mint_twin`: a failure of the node falls back to the stub
  unfoldable pub rpc_mint : SuiAnchor → SuiMintRequest → Text × Text
  rpc_mint anchor request = elim (node.decode_key anchor.key) [
    | none ↦ stub_mint h request.twin_id request.merkle_root
    | some seed ↦ elim (node.mint_real anchor.rpc_url seed request) [
      | ok pair ↦ pair
      | err e ↦ stub_mint h request.twin_id request.merkle_root
    ]
  ]

  -- `SuiAnchor::mint_twin` never fails; the receipt comes back with the object id and the digest.
  unfoldable pub mint_twin : SuiAnchor → SceneReceipt F → SceneReceipt F × SuiMintResponse
  mint_twin anchor receipt =
      let (tx_digest, object_id) = rpc_mint anchor (from_scene_receipt receipt anchor.address) in
      (
        with_sui receipt object_id tx_digest,
        record {
          tx_digest = tx_digest;
          object_id = object_id;
          gas_used = 3500000;
          epoch = 1;
          status = success;
        },
      )
