-- ===== src/Ucx/Job.antt =====
-- ucx-protocol/src/capability.rs, job.rs, receipt.rs and error.rs: what the broker and the providers
-- exchange. Times are milliseconds and `F` is the type of `f64`.
use sovereign_stack.Base.{ℕ, Bool, true, Option, none, List, [], Text}

pub data ProviderTier : Type 0 where
  personal community professional : ProviderTier

pub data TrustLevel : Type 0 where
  standard confidential tee : TrustLevel

pub data GpuVendor : Type 0 where
  nvidia amd intel apple : GpuVendor
  other : Text → GpuVendor

pub data CpuArch : Type 0 where
  x86_64 arm64 riscv64 : CpuArch
  other : Text → CpuArch

pub data RuntimeKind : Type 0 where
  oci bare : RuntimeKind

pub record GpuCapability (F : Type 0) : Type 0 where
  pub vendor : GpuVendor
  pub model : Text
  pub vram_gb : F
  pub fp16 : Bool
  pub bf16 : Bool
  pub cuda : Bool
  pub rocm : Bool
  pub count : ℕ

pub record CpuCapability : Type 0 where
  pub cores : ℕ
  pub arch : CpuArch
  pub frequency_mhz : Option ℕ

pub record ProviderCapability (F : Type 0) : Type 0 where
  pub provider_id : Text
  pub tier : ProviderTier
  pub trust : TrustLevel
  pub gpu : Option (GpuCapability F)
  pub cpu : CpuCapability
  pub ram_gb : F
  pub disk_gb : F
  pub runtimes : List RuntimeKind
  pub price_gpu_hour_cents : Option ℕ
  pub price_cpu_hour_cents : ℕ
  pub policy_deny : List Text
  pub regions : List Text

pub data WorkloadType : Type 0 where
  inference training rendering simulation ci_cd generic : WorkloadType

pub record WorkloadRequirements (F : Type 0) : Type 0 where
  pub vram_gb : Option F
  pub ram_gb : Option F
  pub cpu_cores : Option ℕ
  pub gpu_count : Option ℕ
  pub fp16 : Bool
  pub bf16 : Bool
  pub cuda : Bool
  pub min_tier : Option ProviderTier

pub record ComputeConstraints : Type 0 where
  pub max_price_cents : Option ℕ
  pub max_queue_secs : Option ℕ
  pub privacy : TrustLevel
  pub regions : List Text
  pub allow_external : Bool

unfoldable pub default_constraints : ComputeConstraints
default_constraints = record {
  max_price_cents = none;
  max_queue_secs = none;
  privacy = standard;
  regions = [];
  allow_external = true;
}

pub record Job (F : Type 0) : Type 0 where
  pub id : ℕ
  pub submitted_at : ℕ
  pub submitter_id : Text
  pub workload : WorkloadType
  pub requirements : WorkloadRequirements F
  pub constraints : ComputeConstraints
  pub runtime_spec : Text

pub record Offer : Type 0 where
  pub job_id : ℕ
  pub provider_id : Text
  pub price_cents : ℕ
  pub eta_secs : ℕ
  pub expires_at : ℕ
  pub is_external : Bool

pub data JobStatus : Type 0 where
  pending allocated running completed failed cancelled : JobStatus

pub record Allocation : Type 0 where
  pub job_id : ℕ
  pub provider_id : Text
  pub offer : Offer
  pub allocated_at : ℕ
  pub status : JobStatus

pub record ResourceUsage (F : Type 0) : Type 0 where
  pub gpu_seconds : F
  pub cpu_seconds : F
  pub ram_gb_seconds : F
  pub storage_gb : F
  pub egress_gb : F

pub data BillingCurrency : Type 0 where
  usd ase : BillingCurrency

pub record LineItem : Type 0 where
  pub label : Text
  pub cents : ℕ

pub record BillingRecord : Type 0 where
  pub amount_cents : ℕ
  pub currency : BillingCurrency
  pub line_items : List LineItem

pub record VerificationProof : Type 0 where
  pub artifact_hash : Option Text
  pub runtime_attestation : Option Text
  pub execution_hash : Option Text

pub record ComputeReceipt (F : Type 0) : Type 0 where
  pub job_id : ℕ
  pub provider_id : Text
  pub completed_at : ℕ
  pub resources : ResourceUsage F
  pub billing : BillingRecord
  pub verification : VerificationProof
  pub zangbeto_anchor : Option Text

-- The messages are left out.
pub data UcxError : Type 0 where
  insufficient_capacity provider_rejected execution_failed policy_violation billing
        receipt_verification adapter serialization :
      UcxError
  job_not_found : ℕ → UcxError
  provider_not_found : Text → UcxError
