-- ===== src/Pipeline/Linked.antt =====
-- What a run of sovereign-pipeline/src/capture_pipeline.rs leaves behind, and when it succeeds.
use sovereign_stack.Base.{
  ◌+◌, ◌%◌, ◌^◌, ◌≡◌, ◌↔◌, refl, sym, ap, ◌∙◌, subst, false, Option, none, some, [], ◌∷◌, ◌++◌,
  Text, text, Text_discrete, lookup, Result, ok, map_err, map_err-eq-ok, bind-eq-ok, ok-injective,
  Succeeds, Succeeds-bind, arith, guard, not,
}
use sovereign_stack.Vcp.Grant.{Signing}
use sovereign_stack.Vcp.Session.{VcpSession, VcpSessionOutcome, record_command, add_evidence, close}
use sovereign_stack.Twin.Asset.{
  AssetServices, TwinQuality, TwinDataHashes, new_quality, twin_id_from_hashes, gate,
  quality_gate_failed,
}
use sovereign_stack.Twin.Receipts.{CaptureReceipt, build_capture, build_scene}
use sovereign_stack.Twin.Gated.{
  IsCaptured, IsAssembled, build_capture_iff, build_scene_iff, build_capture_ok, build_scene_ok,
}
use sovereign_stack.Pipeline.Capture.{
  Devices, Readings, CapturePipeline, PipelineOutput, PipelineError, RawCapture, asset, splatted,
  capture_or_stub, record_all, recorded, drive, capture_run, twin_of, data_hashes_of, conclude,
  run_capture,
}
use sovereign_stack.Pipeline.Granted.{IsGranted, Signs, hash_of, hashes, drive_granted, drive_ok}

-- What the twin holds of the raw data: its hashes.
pub record IsHashed {F G : Type 0} (s : AssetServices F G) (raw : RawCapture F) (h : TwinDataHashes)
    : Type 0 where
  pub rgb : h.rgb ≡ hash_of s raw.rgb_frames
  pub lidar : h.lidar ≡ hash_of s raw.lidar_cloud
  pub imu : h.imu ≡ hash_of s raw.imu_log
  pub splat : h.splat ≡ hash_of s raw.splat

module _ {F G : Type 0} (s : AssetServices F G) (sg : Signing G) (devices : Devices F)
    (t : Readings) (pipeline : CapturePipeline F G) (session : VcpSession G)
    (live : Option Text) where
  -- the raw data that the receipts are about
  abbrev pub raw_of : RawCapture F
  raw_of =
      splatted s sg devices pipeline.config session.grant.device_id
        (capture_or_stub s sg devices live)

  -- What ties an output to the raw data, the grant and the session.
  pub record IsLinked (out : PipelineOutput F G) : Type 0 where
    pub granted : IsGranted s sg devices t session.grant
    pub gated : s.lt raw_of.f1_score s.f1_gate ≡ false
    pub score : out.scene_receipt.f1_score ≡ raw_of.f1_score
    pub hashed : IsHashed s raw_of out.twin.data_hashes
    pub twin_id : out.twin.twin_id ≡ twin_id_from_hashes s out.twin.data_hashes
    pub scene_twin : out.scene_receipt.twin_id ≡ out.twin.twin_id
    pub scene_splat : out.twin.data_hashes.splat ≡ some out.scene_receipt.splat_hash
    pub scene_captures : out.scene_receipt.capture_receipt_ids ≡ out.capture_receipt.receipt_id ∷ []
    pub twin_captures :
        out.twin.provenance.capture_receipt_ids ≡ out.capture_receipt.receipt_id ∷ []
    pub evidence :
        out.session_receipt.evidence_ids
        ≡ session.evidence_ids ++ (out.capture_receipt.receipt_id ∷ [])
    pub commands : out.session_receipt.commands_issued ≡ (session.commands_issued + 3) % 2 ^ 32
    pub not_minted : out.scene_receipt.sui_object_id ≡ none

  abbrev run : Result (PipelineError F G) (PipelineOutput F G)
  run = run_capture s sg devices t pipeline session live

  -- the session that is closed
  abbrev done : VcpSession G
  done = record_all session recorded

  hash_receipt :
      (r : CaptureReceipt F G)
      → IsCaptured s t.captured.0 t.captured.1
          (capture_run s sg devices pipeline session.grant.device_id t.ended raw_of)
          r
      → IsHashed s raw_of (data_hashes_of s sg devices r)
  unfolding data_hashes_of capture_run
  hash_receipt r v =
      let (a, b, c, d) = hashes s raw_of in
      let same = ap (λ x. x.raw_hashes) v.receipt in
      record {
        rgb = ap (lookup Text_discrete (text "rgb")) same ∙ a;
        lidar = ap (lookup Text_discrete (text "lidar")) same ∙ b;
        imu = ap (lookup Text_discrete (text "imu")) same ∙ c;
        splat = ap (lookup Text_discrete (text "splat")) same ∙ d;
      }

  -- The three values made on the way.
  record IsConcluded (out : PipelineOutput F G) : Type 0 where
    captured :
        IsCaptured s t.captured.0 t.captured.1
          (capture_run s sg devices pipeline session.grant.device_id t.ended raw_of)
          out.capture_receipt
    quality : TwinQuality F
    measured :
        new_quality s raw_of.f1_score raw_of.coverage_pct pipeline.config.reconstruction_engine
        ≡ ok quality
    assembled :
        out.twin
        ≡ twin_of s sg devices t pipeline session.grant.device_id raw_of out.capture_receipt quality
    scene :
        IsAssembled s t.scene.0 t.scene.1 pipeline.identity out.twin
          (out.capture_receipt ∷ [])
          pipeline.config.reconstruction_engine
          pipeline.agent_key
          out.scene_receipt
    closed :
        out.session_receipt
        ≡ close t.closed.0 t.closed.1
            (add_evidence done out.capture_receipt.receipt_id)
            VcpSessionOutcome.completed

  done_grant : done.grant ≡ session.grant
  unfolding record_all record_command
  done_grant = refl

  concluded :
      (out : PipelineOutput F G)
      → conclude s sg devices t pipeline done raw_of ≡ ok out
      → IsConcluded out
  unfolding conclude record_all record_command
  concluded out h =
      let (receipt, a, h1) =
        bind-eq-ok (map_err asset (build_capture s t.captured.0 t.captured.1 _)) _ h in
      let (quality, b, h2) = bind-eq-ok (map_err asset (new_quality s _ _ _)) _ h1 in
      let (scene, c, h3) =
        bind-eq-ok (map_err asset (build_scene s t.scene.0 t.scene.1 _ _ _ _ _)) _ h2 in
      subst IsConcluded (ok-injective h3) (record {
        captured = (build_capture_iff s _ _ _ _).0 (map_err-eq-ok _ _ a);
        quality = quality;
        measured = map_err-eq-ok _ _ b;
        assembled = refl;
        scene = (build_scene_iff s _ _ _ _ _ _ _ _).0 (map_err-eq-ok _ _ c);
        closed = refl;
      })

  new_quality_score :
      (f1 coverage : F) (engine : Text) {q : TwinQuality F}
      → new_quality s f1 coverage engine ≡ ok q
      → f1 ≡ q.f1_score
  unfolding new_quality
  new_quality_score f1 coverage engine h =
      let (u, g, e) = bind-eq-ok (gate s f1) _ h in ap (λ q. q.f1_score) (ok-injective e)

  new_quality_ok :
      (f1 coverage : F) (engine : Text)
      → s.lt f1 s.f1_gate ≡ false
      → Succeeds (new_quality s f1 coverage engine)
  unfolding new_quality
  new_quality_ok f1 coverage engine g =
      Succeeds-bind _ (ap (λ b. guard (not b) (quality_gate_failed f1)) g) (_, refl)

  linked :
      (out : PipelineOutput F G)
      → IsGranted s sg devices t session.grant
      → IsConcluded out
      → IsLinked out
  unfolding close add_evidence record_all record_command capture_run
  linked out granted v = record {
    granted = granted;
    gated = v.captured.gated;
    score =
        ap (λ r. r.f1_score) v.scene.receipt
        ∙ ap (λ w. w.quality.f1_score) v.assembled
        ∙ sym (new_quality_score _ _ _ v.measured);
    hashed =
        subst (λ h. IsHashed s raw_of h) (sym (ap (λ w. w.data_hashes) v.assembled))
          (hash_receipt out.capture_receipt v.captured);
    twin_id =
        ap (λ w. w.twin_id) v.assembled
        ∙ ap (twin_id_from_hashes s) (sym (ap (λ w. w.data_hashes) v.assembled));
    scene_twin = ap (λ r. r.twin_id) v.scene.receipt;
    scene_splat = v.scene.splat ∙ ap some (sym (ap (λ r. r.splat_hash) v.scene.receipt));
    scene_captures = ap (λ r. r.capture_receipt_ids) v.scene.receipt;
    twin_captures = ap (λ w. w.provenance.capture_receipt_ids) v.assembled;
    evidence = ap (λ r. r.evidence_ids) v.closed;
    commands = ap (λ r. r.commands_issued) v.closed ∙ omega arith;
    not_minted = ap (λ r. r.sui_object_id) v.scene.receipt;
  }

  -- Whatever a run returns belongs together: the grant covers the three commands when they are made,
  -- and the score of the raw data is not below the gate; the twin has the hashes of these data and
  -- its id from them; the scene receipt has this score, this twin, its splat and this capture alone,
  -- and no object id yet; the receipt of the session has the capture as its last evidence and three
  -- commands more than the session had, modulo 2 ^ 32.
  pub run_capture-IsLinked : (out : PipelineOutput F G) → run ≡ ok out → IsLinked out
  unfolding run_capture
  run_capture-IsLinked out h =
      let (raw, a, h1) =
        bind-eq-ok (drive s sg devices t live session.grant pipeline.agent_key) _ h in
      let (granted, same) = drive_granted s sg devices t live session.grant pipeline.agent_key a in
      linked out granted (
        concluded out (
          subst
            (λ x.
              conclude s sg devices t pipeline done
                (splatted s sg devices pipeline.config session.grant.device_id x)
              ≡ ok out)
            same h1))

  -- The conditions of a run.
  pub record IsReady : Type 0 where
    pub granted : IsGranted s sg devices t session.grant
    pub gated : s.lt raw_of.f1_score s.f1_gate ≡ false
    pub splat : Text
    pub splatted : raw_of.splat ≡ some splat

  some_hash : (o : Option Text) (h : Text) → hash_of s o ≡ some h → (b : Text) × (o ≡ some b)
  some_hash none h e = cc e
  some_hash (some b) h e = (b, refl)

  ready : (out : PipelineOutput F G) → IsLinked out → IsReady
  ready out v =
      let (b, e) = some_hash raw_of.splat _ (sym v.hashed.splat ∙ v.scene_splat) in
      record { granted = v.granted; gated = v.gated; splat = b; splatted = e }

  concludes :
      Signs s sg devices pipeline.agent_key
      → IsReady
      → Succeeds (conclude s sg devices t pipeline done raw_of)
  unfolding conclude record_all record_command capture_run
  concludes signs v =
      let (receipt, a) =
        build_capture_ok s t.captured.0 t.captured.1
          (capture_run s sg devices pipeline session.grant.device_id t.ended raw_of) v.gated
          signs.0 in
      let hashed = hash_receipt receipt ((build_capture_iff s _ _ _ _).0 a) in
      let (quality, b) = new_quality_ok raw_of.f1_score _ _ v.gated in
      let (scene, c) =
        build_scene_ok s t.scene.0 t.scene.1 pipeline.identity
          (twin_of s sg devices t pipeline session.grant.device_id raw_of receipt quality)
          (receipt ∷ []) pipeline.config.reconstruction_engine pipeline.agent_key _
          (hashed.splat ∙ ap (hash_of s) v.splatted)
          (subst (λ f. s.lt f s.f1_gate ≡ false) (new_quality_score _ _ _ b) v.gated) signs.0 in
      Succeeds-bind _ (ap (map_err asset) a)
        (Succeeds-bind _ (ap (map_err asset) b) (Succeeds-bind _ (ap (map_err asset) c) (_, refl)))

  -- With a key that can sign, a run succeeds exactly if the grant covers the three commands, the
  -- score is not below the gate and there is a splat.
  pub run_capture_iff : Signs s sg devices pipeline.agent_key → Succeeds run ↔ IsReady
  unfolding run_capture
  run_capture_iff signs = (
    λ (out, h). ready out (run_capture-IsLinked out h),
    λ v.
        Succeeds-bind _
          (drive_ok s sg devices t live session.grant pipeline.agent_key signs v.granted)
          (concludes signs v),
  )
