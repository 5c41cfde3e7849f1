-- ===== src/Ucx/Broker.antt =====
-- ucx-broker/src/broker.rs with the `ComputeProvider` interface of ucx-protocol/src/provider.rs: the
-- scoring of providers and the matching of a job. Float comparison and division are parameters.
use sovereign_stack.Base.{
  ℕ, ◌+◌, ◌-◌, ◌*◌, Bool, true, Option, none, some, List, [], ◌∷◌, ◌++◌, Text, Text_discrete, eqb,
  ltb, leb, if◌then◌else◌, Result, ok, err, ◌>>=◌, find?,
}
use sovereign_stack.Ucx.Job.{
  ProviderCapability, GpuCapability, ProviderTier, TrustLevel, WorkloadRequirements, Job,
  Allocation, JobStatus, ComputeReceipt, UcxError, insufficient_capacity, provider_not_found,
}

pub record Floats (F : Type 0) : Type 0 where
  pub lt : F → F → Bool
  -- `a >= b`
  pub ge : F → F → Bool
  pub div : F → F → F
  -- 1.5, 2.5 and 4.0
  pub tight : F
  pub double : F
  pub quadruple : F
  pub zero : F

-- The operations of a provider on its present state.
pub record ComputeProvider (F : Type 0) : Type 0 where
  pub id : Text
  pub capability : ProviderCapability F
  pub can_accept : Job F → Bool
  pub submit : Job F → Result UcxError Allocation
  pub status : ℕ → Result UcxError JobStatus
  pub receipt : ℕ → Result UcxError (ComputeReceipt F)
  pub cancel : ℕ → Result UcxError (Unit {0})

pub record Broker (F : Type 0) : Type 0 where
  pub native : List (ComputeProvider F)
  pub external : List (ComputeProvider F)

unfoldable pub new_broker : {F : Type 0} → Broker F
new_broker = record { native = []; external = [] }

unfoldable pub register_native : {F : Type 0} → Broker F → ComputeProvider F → Broker F
register_native b p = record b { native = b.native ++ (p ∷ []) }

unfoldable pub register_external : {F : Type 0} → Broker F → ComputeProvider F → Broker F
register_external b p = record b { external = b.external ++ (p ∷ []) }

module _ {F : Type 0} (fl : Floats F) where
  unfoldable pub vram_points : Option F → Option (GpuCapability F) → ℕ
  vram_points none gpu = 20
  vram_points (some need_vram) none = 0
  vram_points (some need_vram) (some gpu) =
      if fl.ge gpu.vram_gb need_vram
      then (let ratio = fl.div gpu.vram_gb need_vram in
          if fl.lt ratio fl.tight
          then 40
          else if fl.lt ratio fl.double
          then 30
          else if fl.lt ratio fl.quadruple
          then 20
          else 10)
      else 0

  -- Subtraction saturates at 0, as the source's does.
  unfoldable pub count_points : Option ℕ → Option (GpuCapability F) → ℕ
  count_points none gpu = 10
  count_points (some need_gpus) none = 0
  count_points (some need_gpus) (some gpu) =
      if leb need_gpus gpu.count then 20 - (gpu.count - need_gpus) * 3 else 0

  unfoldable pub tier_points : ProviderTier → Option ProviderTier → ℕ
  tier_points ProviderTier.professional min_tier = 15
  tier_points ProviderTier.community min_tier = 10
  tier_points ProviderTier.personal none = 8
  tier_points ProviderTier.personal (some _) = 5

  unfoldable pub price_points : Option ℕ → ℕ
  price_points none = 10
  price_points (some gpu_price) =
      if leb gpu_price 30
      then 15
      else if leb gpu_price 60
      then 12
      else if leb gpu_price 150
      then 8
      else 3

  unfoldable pub trust_points : TrustLevel → ℕ
  trust_points TrustLevel.tee = 10
  trust_points TrustLevel.confidential = 7
  trust_points TrustLevel.standard = 4

  unfoldable pub score_provider : ProviderCapability F → WorkloadRequirements F → ℕ
  score_provider cap req =
      vram_points req.vram_gb cap.gpu
      + count_points req.gpu_count cap.gpu
      + tier_points cap.tier req.min_tier
      + price_points cap.price_gpu_hour_cents
      + trust_points cap.trust

  abbrev pub score_for : Job F → ComputeProvider F → ℕ
  score_for job p = score_provider p.capability job.requirements

  -- `best.map_or(true, |(s, _)| score > s)`
  abbrev pub improves : ℕ → Option (ℕ × ComputeProvider F) → Bool
  improves score none = true
  improves score (some (s, _)) = ltb s score

  -- the loop over the providers, from the best so far
  unfoldable pub best_from :
      Job F
      → Option (ℕ × ComputeProvider F)
      → List (ComputeProvider F)
      → Option (ℕ × ComputeProvider F)
  best_from job best [] = best
  best_from job best (p ∷ ps) =
      best_from job
        (if p.can_accept job
          then (if improves (score_for job p) best then some (score_for job p, p) else best)
          else best)
        ps

  unfoldable pub try_allocate :
      List (ComputeProvider F) → Job F → Option (Result UcxError Allocation)
  try_allocate providers job = elim (best_from job none providers) [
    | none ↦ none
    | some (_, p) ↦ some (p.submit job)
  ]

  unfoldable pub submit : Broker F → Job F → Result UcxError Allocation
  submit b job = elim (try_allocate b.native job) [
    | some allocation ↦ allocation
    | none ↦
        if job.constraints.allow_external
        then elim (try_allocate b.external job) [
          | some allocation ↦ allocation
          | none ↦ err insufficient_capacity
        ]
        else err insufficient_capacity
  ]

unfoldable pub find_provider : {F : Type 0} → Broker F → Text → Result UcxError (ComputeProvider F)
find_provider b provider_id = elim (find? (λ p. eqb Text_discrete p.id provider_id) b.native) [
  | some p ↦ ok p
  | none ↦ elim (find? (λ p. eqb Text_discrete p.id provider_id) b.external) [
    | some p ↦ ok p
    | none ↦ err (provider_not_found provider_id)
  ]
]

unfoldable pub broker_status : {F : Type 0} → Broker F → ℕ → Text → Result UcxError JobStatus
unfolding find_provider
broker_status b job_id provider_id = find_provider b provider_id >>= λ p. p.status job_id

unfoldable pub broker_receipt :
    {F : Type 0} → Broker F → ℕ → Text → Result UcxError (ComputeReceipt F)
unfolding find_provider
broker_receipt b job_id provider_id = find_provider b provider_id >>= λ p. p.receipt job_id

unfoldable pub broker_cancel : {F : Type 0} → Broker F → ℕ → Text → Result UcxError (Unit {0})
unfolding find_provider
broker_cancel b job_id provider_id = find_provider b provider_id >>= λ p. p.cancel job_id
