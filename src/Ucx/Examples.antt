-- ===== src/Ucx/Examples.antt =====
-- Jobs and providers of the UCX crates at concrete values, with natural numbers for floats.
use sovereign_stack.Base.{
  ℕ, ◌*◌, ◌/◌, ◌≡◌, refl, true, false, none, some, [], ◌∷◌, text, ltb, leb, ok, err,
}
use sovereign_stack.Ucx.Job.{
  Job, ProviderCapability, ProviderTier, TrustLevel, GpuVendor, CpuArch, RuntimeKind, WorkloadType,
  job_not_found, default_constraints,
}
use sovereign_stack.Ucx.Broker.{Floats, Broker, ComputeProvider, submit}
use sovereign_stack.Ucx.Matching.{Match, submit-Match}
use sovereign_stack.Ucx.Local.{
  LocalProvider, JobRunner, RunResult, can_accept, submit_local, status_local, receipt_local,
  cancel_local,
}
use sovereign_stack.Ucx.Jobs.{cancel_local_never, here, next, submitted}

-- Tenths.
abbrev tenths : Floats ℕ
tenths = record {
  lt = ltb;
  ge = λ a b. leb b a;
  div = λ a b. a * 10 / b;
  tight = 15;
  double = 25;
  quadruple = 40;
  zero = 0;
}

abbrev capability : ProviderCapability ℕ
capability = record {
  provider_id = text "home";
  tier = ProviderTier.community;
  trust = TrustLevel.standard;
  gpu = some (record {
    vendor = GpuVendor.nvidia;
    model = text "x";
    vram_gb = 240;
    fp16 = true;
    bf16 = true;
    cuda = true;
    rocm = false;
    count = 1;
  });
  cpu = record { cores = 8; arch = CpuArch.arm64; frequency_mhz = none };
  ram_gb = 320;
  disk_gb = 1000;
  runtimes = RuntimeKind.oci ∷ [];
  price_gpu_hour_cents = some 30;
  price_cpu_hour_cents = 1;
  policy_deny = text "train" ∷ [];
  regions = [];
}

abbrev job : Job ℕ
unfolding default_constraints
job = record {
  id = 7;
  submitted_at = 0;
  submitter_id = text "did:a";
  workload = WorkloadType.inference;
  requirements = record {
    vram_gb = some 160;
    ram_gb = some 100;
    cpu_cores = some 4;
    gpu_count = some 1;
    fp16 = false;
    bf16 = false;
    cuda = true;
    min_tier = none;
  };
  constraints = default_constraints;
  runtime_spec = text "{}";
}

abbrev local : LocalProvider ℕ
local = record { capability = capability; jobs = [] }

abbrev runner : JobRunner ℕ
runner j =
    ok (record { artifact_hash = none; execution_hash = none; gpu_seconds = 0; cpu_seconds = 0 })

abbrev provider : ComputeProvider ℕ
provider = record {
  id = text "home";
  capability = capability;
  can_accept = can_accept tenths local;
  submit = λ j. (submit_local tenths runner 0 local j).1;
  status = status_local local;
  receipt = receipt_local local;
  cancel = λ id. (cancel_local local id).1;
}

abbrev broker : Broker ℕ
broker = record { native = provider ∷ []; external = [] }

submit-Match_example : Match tenths job broker (submit tenths broker job)
submit-Match_example = submit-Match tenths job broker

abbrev result : RunResult ℕ
result = record { artifact_hash = none; execution_hash = none; gpu_seconds = 0; cpu_seconds = 0 }

abbrev after : LocalProvider ℕ
after = (submit_local tenths runner 0 local job).0

cancel_local_never_example : cancel_local after 7 ≡ (after, err (job_not_found 7))
cancel_local_never_example =
    cancel_local_never tenths runner local after refl (next here (submitted 0 job)) 7
