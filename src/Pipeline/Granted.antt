-- ===== src/Pipeline/Granted.antt =====
-- Two steps of sovereign-pipeline/src/capture_pipeline.rs: the hashes of the raw data, and the
-- commands of the driver under a grant.
use sovereign_stack.Base.{
  ℕ, ◌≡◌, refl, sym, ◌∙◌, false, Option, none, some, List, ◌++◌, map, Text, text, Text_discrete,
  eqb, lookup, ok, map_err-eq-ok, bind-eq-ok, ok-injective, Succeeds, Succeeds-map_err,
  Succeeds-bind, arith,
}
use sovereign_stack.Shared.Merkle.{hash_bytes}
use sovereign_stack.Vcp.Grant.{VcpCapabilityGrant, VcpGrantedCapability, Signing, covers}
use sovereign_stack.Vcp.Command.{VcpCommand, new_command}
use sovereign_stack.Twin.Asset.{AssetServices}
use sovereign_stack.Twin.Receipts.{hash_entry}
use sovereign_stack.Pipeline.Capture.{
  Devices, Readings, RawCapture, entry, to_raw_data_map, capture_or_stub, command_for, drive,
}

module _ {F G : Type 0} (s : AssetServices F G) where
  abbrev pub hash : Text → Text
  hash = hash_bytes s.hashing

  abbrev pub hash_of : Option Text → Option Text
  hash_of none = none
  hash_of (some bytes) = some (hash bytes)

  abbrev at : Text → List (Text × Text) → Option Text
  at k m = lookup Text_discrete k (map (hash_entry s) m)

  skip :
      (k j : Text) (o : Option Text) (m : List (Text × Text))
      → eqb Text_discrete j k ≡ false
      → at k (entry j o ++ m) ≡ at k m
  unfolding lookup
  skip k j none m n = refl
  skip k j (some x) m n = ground arith

  hit :
      (k : Text) (o : Option Text) (m : List (Text × Text))
      → at k m ≡ none
      → at k (entry k o ++ m) ≡ hash_of o
  unfolding lookup
  hit k none m e = e
  hit k (some x) m e = ground arith

  alone : (k j : Text) (o : Option Text) → eqb Text_discrete j k ≡ false → at k (entry j o) ≡ none
  unfolding lookup
  alone k j none n = refl
  alone k j (some x) n = ground arith

  alone_hit : (k : Text) (o : Option Text) → at k (entry k o) ≡ hash_of o
  unfolding lookup
  alone_hit k none = refl
  alone_hit k (some x) = ground arith

  pub hashes :
      (raw : RawCapture F)
      → (at (text "rgb") (to_raw_data_map raw) ≡ hash_of raw.rgb_frames)
        × (at (text "lidar") (to_raw_data_map raw) ≡ hash_of raw.lidar_cloud)
        × (at (text "imu") (to_raw_data_map raw) ≡ hash_of raw.imu_log)
        × (at (text "splat") (to_raw_data_map raw) ≡ hash_of raw.splat)
  unfolding to_raw_data_map Text_discrete
  hashes raw =
      let i : Text = text "imu" in
      let l : Text = text "lidar" in
      let r : Text = text "rgb" in
      let p : Text = text "splat" in
      (
        skip r i raw.imu_log _ refl
            ∙ skip r l raw.lidar_cloud _ refl
            ∙ hit r raw.rgb_frames _ (alone r p raw.splat refl),
        skip l i raw.imu_log _ refl
            ∙ hit l raw.lidar_cloud _ (skip l r raw.rgb_frames _ refl ∙ alone l p raw.splat refl),
        hit i raw.imu_log _ (
            skip i l raw.lidar_cloud _ refl
            ∙ skip i r raw.rgb_frames _ refl
            ∙ alone i p raw.splat refl),
        skip p i raw.imu_log _ refl
            ∙ skip p l raw.lidar_cloud _ refl
            ∙ skip p r raw.rgb_frames _ refl
            ∙ alone_hit p raw.splat,
      )

module _ {F G : Type 0} (s : AssetServices F G) (sg : Signing G) (devices : Devices F) where
  -- The grant covers a capability when a command is made.
  abbrev pub Covers : VcpCapabilityGrant G → Text × ℕ → Text → Type 0
  Covers grant (uuid, now) id = (c : VcpGrantedCapability G) × (covers now grant id ≡ ok c)

  pub record IsGranted (t : Readings) (grant : VcpCapabilityGrant G) : Type 0 where
    pub camera : Covers grant t.camera (text "camera")
    pub lidar : Covers grant t.lidar (text "lidar")
    pub telemetry : Covers grant t.telemetry (text "telemetry")

  -- A key with which everything can be signed.
  abbrev pub Signs : Text → Type 0
  Signs key =
      ((m : Text) → (g : Text) × (s.sign m key ≡ ok g))
      × ((m : Text) → (g : Text) × (sg.sign m key ≡ ok g))

  command_for_covers :
      (grant : VcpCapabilityGrant G) (key : Text) (r : Text × ℕ) (id action : Text)
      {c : VcpCommand G}
      → command_for s sg devices grant key r id action ≡ ok c
      → Covers grant r id
  unfolding command_for new_command
  command_for_covers grant key (uuid, now) id action h =
      let (c, e, rest) = bind-eq-ok (covers now grant id) _ (map_err-eq-ok _ _ h) in (c, e)

  command_for_ok :
      (grant : VcpCapabilityGrant G) (key : Text) (r : Text × ℕ) (id action : Text)
      → Signs key
      → Covers grant r id
      → Succeeds (command_for s sg devices grant key r id action)
  unfolding command_for new_command
  command_for_ok grant key (uuid, now) id action signs (c, e) =
      let (g, k) = signs.1 _ in Succeeds-map_err _ (Succeeds-bind _ e (Succeeds-bind _ k (_, refl)))

  pub drive_granted :
      (t : Readings) (live : Option Text) (grant : VcpCapabilityGrant G) (key : Text)
      {raw : RawCapture F}
      → drive s sg devices t live grant key ≡ ok raw
      → IsGranted t grant × (raw ≡ capture_or_stub s sg devices live)
  unfolding drive
  drive_granted t live grant key h =
      let (c, p, h1) = bind-eq-ok (command_for s sg devices grant key t.camera _ _) _ h in
      let (l, q, h2) = bind-eq-ok (command_for s sg devices grant key t.lidar _ _) _ h1 in
      let (m, r, h3) = bind-eq-ok (command_for s sg devices grant key t.telemetry _ _) _ h2 in
      (
        record {
          camera = command_for_covers grant key t.camera _ _ p;
          lidar = command_for_covers grant key t.lidar _ _ q;
          telemetry = command_for_covers grant key t.telemetry _ _ r;
        },
        sym (ok-injective h3),
      )

  pub drive_ok :
      (t : Readings) (live : Option Text) (grant : VcpCapabilityGrant G) (key : Text)
      → Signs key
      → IsGranted t grant
      → drive s sg devices t live grant key ≡ ok (capture_or_stub s sg devices live)
  unfolding drive
  drive_ok t live grant key signs v =
      let (c, p) =
        command_for_ok grant key t.camera (text "camera") (text "capture_frame") signs v.camera in
      let (l, q) =
        command_for_ok grant key t.lidar (text "lidar") (text "capture_pointcloud") signs v.lidar in
      let (m, r) =
        command_for_ok grant key t.telemetry (text "telemetry") (text "poll") signs v.telemetry in
      rw (p, q, r) refl
