-- ===== src/Ucx/Local.antt =====
-- ucx-provider/src/local_provider.rs: the provider of the local machine, its job table as state. The
-- job runner and the clock are parameters.
use sovereign_stack.Base.{
  ℕ, Bool, true, false, not, ◌&&◌, ◌||◌, Option, none, some, List, [], ◌∷◌, Text, text,
  contains_text, Dict, lookup, insert, ltb, ℕ_discrete, if◌then◌else◌, Result, ok, err, ok_or,
}
use sovereign_stack.Ucx.Job.{
  ProviderCapability, GpuCapability, WorkloadType, WorkloadRequirements, Job, Allocation, JobStatus,
  ComputeReceipt, BillingCurrency, UcxError, job_not_found, pending, running, completed, cancelled,
}
use sovereign_stack.Ucx.Broker.{Floats}

pub record RunResult (F : Type 0) : Type 0 where
  pub artifact_hash : Option Text
  pub execution_hash : Option Text
  pub gpu_seconds : F
  pub cpu_seconds : F

abbrev pub JobRunner : Type 0 → Type 0
JobRunner F = Job F → Result UcxError (RunResult F)

pub record JobRecord (F : Type 0) : Type 0 where
  pub job : Job F
  pub status : JobStatus
  pub receipt : Option (ComputeReceipt F)

pub record LocalProvider (F : Type 0) : Type 0 where
  pub capability : ProviderCapability F
  pub jobs : Dict ℕ (JobRecord F)

-- `format!("{:?}", job.workload).to_lowercase()`
abbrev pub workload_label : WorkloadType → Text
workload_label WorkloadType.inference = text "inference"
workload_label WorkloadType.training = text "training"
workload_label WorkloadType.rendering = text "rendering"
workload_label WorkloadType.simulation = text "simulation"
workload_label WorkloadType.ci_cd = text "cicd"
workload_label WorkloadType.generic = text "generic"

-- whether some keyword of the policy is in the label
unfoldable pub is_denied : List Text → Text → Bool
unfolding contains_text
is_denied [] label = false
is_denied (denied ∷ ds) label = contains_text denied label || is_denied ds label

module _ {F : Type 0} (fl : Floats F) where
  unfoldable pub gpu_fits : WorkloadRequirements F → Option (GpuCapability F) → Bool
  gpu_fits req gpu = elim req.vram_gb [
    | none ↦ true
    | some vram_needed ↦ elim gpu [
      | none ↦ false
      | some g ↦ not (fl.lt g.vram_gb vram_needed) && not (req.cuda && not g.cuda)
    ]
  ]

  unfoldable pub can_accept : LocalProvider F → Job F → Bool
  unfolding gpu_fits is_denied
  can_accept p job =
      let req = job.requirements in
      if not (gpu_fits req p.capability.gpu)
      then false
      else if elim req.ram_gb [
        | none ↦ false
        | some ram_needed ↦ fl.lt p.capability.ram_gb ram_needed
      ]
      then false
      else if elim req.cpu_cores [
        | none ↦ false
        | some cores_needed ↦ ltb p.capability.cpu.cores cores_needed
      ]
      then false
      else if is_denied p.capability.policy_deny (workload_label job.workload)
      then false
      else true

  unfoldable pub build_receipt : ℕ → Text → ℕ → RunResult F → ComputeReceipt F
  build_receipt job_id provider_id now result = record {
    job_id = job_id;
    provider_id = provider_id;
    completed_at = now;
    resources = record {
      gpu_seconds = result.gpu_seconds;
      cpu_seconds = result.cpu_seconds;
      ram_gb_seconds = fl.zero;
      storage_gb = fl.zero;
      egress_gb = fl.zero;
    };
    billing = record {
      amount_cents = 0;
      currency = BillingCurrency.usd;
      line_items = record { label = text "compute"; cents = 0 } ∷ [];
    };
    verification = record {
      artifact_hash = result.artifact_hash;
      runtime_attestation = none;
      execution_hash = result.execution_hash;
    };
    zangbeto_anchor = none;
  }

  -- `now` stands for all the clock readings of the call.
  unfoldable pub submit_local :
      JobRunner F → ℕ → LocalProvider F → Job F → LocalProvider F × Result UcxError Allocation
  submit_local run now p job = elim (run job) [
    | err e ↦ (p, err e)
    | ok result ↦ (
      record p {
        jobs =
            insert ℕ_discrete job.id
              (record {
                job = job;
                status = completed;
                receipt = some (build_receipt job.id p.capability.provider_id now result);
              })
              p.jobs;
      },
      ok (record {
        job_id = job.id;
        provider_id = p.capability.provider_id;
        offer = record {
          job_id = job.id;
          provider_id = p.capability.provider_id;
          price_cents = 0;
          eta_secs = 0;
          expires_at = now;
          is_external = false;
        };
        allocated_at = now;
        status = completed;
      }),
    )
  ]

unfoldable pub status_local : {F : Type 0} → LocalProvider F → ℕ → Result UcxError JobStatus
status_local p job_id = elim (lookup ℕ_discrete job_id p.jobs) [
  | none ↦ err (job_not_found job_id)
  | some r ↦ ok r.status
]

unfoldable pub receipt_local :
    {F : Type 0} → LocalProvider F → ℕ → Result UcxError (ComputeReceipt F)
receipt_local p job_id = elim (lookup ℕ_discrete job_id p.jobs) [
  | none ↦ err (job_not_found job_id)
  | some r ↦ ok_or r.receipt (job_not_found job_id)
]

abbrev pub is_open : JobStatus → Bool
is_open running = true
is_open pending = true
is_open _ = false

unfoldable pub cancel_local :
    {F : Type 0} → LocalProvider F → ℕ → LocalProvider F × Result UcxError (Unit {0})
cancel_local p job_id = elim (lookup ℕ_discrete job_id p.jobs) [
  | none ↦ (p, err (job_not_found job_id))
  | some r ↦
      if is_open r.status
      then (
        record p { jobs = insert ℕ_discrete job_id (record r { status = cancelled }) p.jobs },
        ok tt,
      )
      else (p, err (job_not_found job_id))
]
