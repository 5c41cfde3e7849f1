-- ===== src/Ucx/Score.antt =====
-- The bound on the scores of ucx-broker/src/broker.rs.
use sovereign_stack.Base.{ℕ, ◌≤◌, Option, none, some, arith}
use sovereign_stack.Ucx.Job.{
  ProviderCapability, ProviderTier, TrustLevel, GpuCapability, WorkloadRequirements,
}
use sovereign_stack.Ucx.Broker.{
  Floats, vram_points, count_points, tier_points, price_points, trust_points, score_provider,
}

module _ {F : Type 0} (fl : Floats F) where
  vram_bound : (v : Option F) (g : Option (GpuCapability F)) → vram_points fl v g ≤ 40
  unfolding vram_points
  vram_bound none g = omega arith
  vram_bound (some v) none = omega arith
  vram_bound (some v) (some g) = ground arith

  count_bound : (n : Option ℕ) (g : Option (GpuCapability F)) → count_points fl n g ≤ 20
  unfolding count_points
  count_bound none g = omega arith
  count_bound (some n) none = omega arith
  count_bound (some n) (some g) = ground arith

  tier_bound : (t : ProviderTier) (m : Option ProviderTier) → tier_points fl t m ≤ 15
  unfolding tier_points
  tier_bound ProviderTier.professional m = omega arith
  tier_bound ProviderTier.community m = omega arith
  tier_bound ProviderTier.personal none = omega arith
  tier_bound ProviderTier.personal (some m) = omega arith

  price_bound : (p : Option ℕ) → price_points fl p ≤ 15
  unfolding price_points
  price_bound none = omega arith
  price_bound (some p) = ground arith

  trust_bound : (t : TrustLevel) → trust_points fl t ≤ 10
  unfolding trust_points
  trust_bound TrustLevel.tee = omega arith
  trust_bound TrustLevel.confidential = omega arith
  trust_bound TrustLevel.standard = omega arith

  -- No provider scores more than 100 points for any job, so the 32-bit sum cannot overflow.
  score_provider_fits :
      (cap : ProviderCapability F) (req : WorkloadRequirements F) → score_provider fl cap req ≤ 100
  unfolding score_provider
  score_provider_fits cap req = omega (
    arith,
    vram_bound req.vram_gb cap.gpu,
    count_bound req.gpu_count cap.gpu,
    tier_bound cap.tier req.min_tier,
    price_bound cap.price_gpu_hour_cents,
    trust_bound cap.trust,
  )
