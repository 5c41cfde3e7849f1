-- ===== src/Twin/Gated.antt =====
-- When the receipts of twin-protocol/src/capture.rs and scene.rs are issued, and what they say.
use sovereign_stack.Base.{
  ℕ, ◌≡◌, ◌↔◌, refl, sym, ap, Bool, true, false, not, Option, none, some, List, ◌++◌, Text, text,
  ok, guard, bind-eq-ok, ok-injective, Succeeds,
}
use sovereign_stack.Runtime.Identity.{IdentityChain}
use sovereign_stack.Twin.Asset.{TwinAsset, AssetServices, gate, splat_of}
use sovereign_stack.Twin.Receipts.{
  CaptureReceipt, CaptureRun, SceneReceipt, capture_root, capture_of, build_capture, scene_root,
  scene_of, build_scene,
}

guard-not : {E : Type 0} (b : Bool) (e : E) → guard (not b) e ≡ ok tt → b ≡ false
guard-not true e h = cc
guard-not false e h = refl

module _ {F G : Type 0} (s : AssetServices F G) where
  splat_of-ok : (o : Option Text) (hash : Text) → splat_of s o ≡ ok hash → o ≡ some hash
  splat_of-ok none hash h = cc h
  splat_of-ok (some x) hash h = ap some (ok-injective h)

  -- The receipt of a capture: gated and signed, and with the hash of every modality.
  pub record IsCaptured (uuid : Text) (now : ℕ) (c : CaptureRun F G) (r : CaptureReceipt F G)
      : Type 0 where
    pub gated : s.lt c.f1_score s.f1_gate ≡ false
    pub signature : Text
    pub signed :
        s.sign (capture_root s (text "rcpt:31020:" ++ uuid) now c) c.private_key ≡ ok signature
    pub receipt :
        r
        ≡ capture_of s
            (text "rcpt:31020:" ++ uuid)
            now
            c
            (capture_root s (text "rcpt:31020:" ++ uuid) now c)
            signature

  -- A capture gets its receipt exactly if its score is not below the gate and the key can sign.
  pub build_capture_iff :
      (uuid : Text) (now : ℕ) (c : CaptureRun F G) (r : CaptureReceipt F G)
      → (build_capture s uuid now c ≡ ok r) ↔ IsCaptured uuid now c r
  unfolding build_capture
  build_capture_iff uuid now c r = (
    λ h.
        let (u, g, k) = bind-eq-ok (gate s c.f1_score) _ h in
        let (signature, signed, e) = bind-eq-ok (s.sign _ c.private_key) _ k in
        record {
          gated = guard-not _ _ g;
          signature = signature;
          signed = signed;
          receipt = sym (ok-injective e);
        },
    λ v. rw (v.gated, v.signed, v.receipt) refl,
  )

  -- The receipt of a scene: a splat, a score that is not below the gate, and a signature.
  pub record IsAssembled (uuid : Text) (now : ℕ) (identity : IdentityChain) (twin : TwinAsset F G)
      (captures : List (CaptureReceipt F G)) (engine private_key : Text) (r : SceneReceipt F)
      : Type 0 where
    pub splat_hash : Text
    pub splat : twin.data_hashes.splat ≡ some splat_hash
    pub gated : s.lt twin.quality.f1_score s.f1_gate ≡ false
    pub signature : Text
    pub signed :
        s.sign
          (scene_root s (text "rcpt:31030:" ++ uuid) now identity twin captures splat_hash)
          private_key
        ≡ ok signature
    pub receipt :
        r
        ≡ scene_of s
            (text "rcpt:31030:" ++ uuid)
            now
            identity
            twin
            captures
            engine
            splat_hash
            (scene_root s (text "rcpt:31030:" ++ uuid) now identity twin captures splat_hash)
            signature

  -- A twin gets its scene receipt exactly if it has a splat, its score is not below the gate and
  -- the key can sign.
  pub build_scene_iff :
      (uuid : Text) (now : ℕ) (identity : IdentityChain) (twin : TwinAsset F G)
      (captures : List (CaptureReceipt F G)) (engine private_key : Text) (r : SceneReceipt F)
      → (build_scene s uuid now identity twin captures engine private_key ≡ ok r)
        ↔ IsAssembled uuid now identity twin captures engine private_key r
  unfolding build_scene scene_root
  build_scene_iff uuid now identity twin captures engine private_key r = (
    λ h.
        let (splat_hash, p, k) = bind-eq-ok (splat_of s twin.data_hashes.splat) _ h in
        let (u, g, l) = bind-eq-ok (gate s twin.quality.f1_score) _ k in
        let (signature, signed, e) = bind-eq-ok (s.sign _ private_key) _ l in
        record {
          splat_hash = splat_hash;
          splat = splat_of-ok _ _ p;
          gated = guard-not _ _ g;
          signature = signature;
          signed = signed;
          receipt = sym (ok-injective e);
        },
    λ v. rw (v.splat, v.gated, v.signed, v.receipt) refl,
  )

  pub build_capture_ok :
      (uuid : Text) (now : ℕ) (c : CaptureRun F G)
      → s.lt c.f1_score s.f1_gate ≡ false
      → ((m : Text) → Succeeds (s.sign m c.private_key))
      → Succeeds (build_capture s uuid now c)
  build_capture_ok uuid now c g sign =
      let (signature, k) = sign (capture_root s (text "rcpt:31020:" ++ uuid) now c) in
      (
        _,
        (build_capture_iff uuid now c _).1
            (record { gated = g; signature = signature; signed = k; receipt = refl }),
      )

  pub build_scene_ok :
      (uuid : Text) (now : ℕ) (identity : IdentityChain) (twin : TwinAsset F G)
      (captures : List (CaptureReceipt F G)) (engine private_key splat : Text)
      → twin.data_hashes.splat ≡ some splat
      → s.lt twin.quality.f1_score s.f1_gate ≡ false
      → ((m : Text) → Succeeds (s.sign m private_key))
      → Succeeds (build_scene s uuid now identity twin captures engine private_key)
  build_scene_ok uuid now identity twin captures engine private_key splat p g sign =
      let (signature, k) =
        sign (scene_root s (text "rcpt:31030:" ++ uuid) now identity twin captures splat) in
      (
        _,
        (build_scene_iff uuid now identity twin captures engine private_key _).1 (record {
          splat_hash = splat;
          splat = p;
          gated = g;
          signature = signature;
          signed = k;
          receipt = refl;
        }),
      )
