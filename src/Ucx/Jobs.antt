-- ===== src/Ucx/Jobs.antt =====
-- The job table of ucx-provider/src/local_provider.rs: what is accepted, kept and cancelled.
use sovereign_stack.Base.{
  ℕ, ◌≤◌, ◌≡◌, ◌≢◌, ◌↔◌, refl, sym, ap, ◌∙◌, inl, inr, ite, Bool, true, false, not, ◌&&◌, Option,
  none, some, Option-cases, [], lookup, insert, lookup-insert, lookup-insert_same,
  lookup-insert_other, Result-cases, ltb, ℕ_discrete, if◌then◌else◌, ok, err, arith,
}
use sovereign_stack.Ucx.Job.{
  Job, JobStatus, UcxError, GpuCapability, WorkloadRequirements, job_not_found, completed,
}
use sovereign_stack.Ucx.Broker.{Floats}
use sovereign_stack.Ucx.Local.{
  LocalProvider, JobRecord, JobRunner, RunResult, workload_label, is_denied, gpu_fits, can_accept,
  build_receipt, submit_local, status_local, receipt_local, cancel_local,
}

module _ {F : Type 0} (fl : Floats F) where
  abbrev pub VramFits : WorkloadRequirements F → Option F → Option (GpuCapability F) → Type 0
  VramFits req none gpu = Unit
  VramFits req (some needed) none = ⊥
  VramFits req (some needed) (some g) =
      (fl.lt g.vram_gb needed ≡ false) × (req.cuda ≡ true → g.cuda ≡ true)

  abbrev pub RamFits : F → Option F → Type 0
  RamFits ram none = Unit
  RamFits ram (some needed) = fl.lt ram needed ≡ false

  abbrev pub CoresFit : ℕ → Option ℕ → Type 0
  CoresFit cores none = Unit
  CoresFit cores (some needed) = needed ≤ cores

  -- What the machine checks of a job.
  pub record IsAcceptable (p : LocalProvider F) (job : Job F) : Type 0 where
    pub gpu : VramFits job.requirements job.requirements.vram_gb p.capability.gpu
    pub ram : RamFits p.capability.ram_gb job.requirements.ram_gb
    pub cores : CoresFit p.capability.cpu.cores job.requirements.cpu_cores
    pub policy : is_denied p.capability.policy_deny (workload_label job.workload) ≡ false

  abbrev vram_test : WorkloadRequirements F → Option F → Option (GpuCapability F) → Bool
  vram_test req none gpu = true
  vram_test req (some needed) none = false
  vram_test req (some needed) (some g) =
      not (fl.lt g.vram_gb needed) && not (req.cuda && not g.cuda)

  vram_iff :
      (req : WorkloadRequirements F) (v : Option F) (g : Option (GpuCapability F))
      → (vram_test req v g ≡ true) ↔ VramFits req v g
  vram_iff req none g = (λ e. tt, λ h. refl)
  vram_iff req (some v) none = (λ e. cc, λ h. absurd h)
  vram_iff req (some v) (some g) =
      (λ e. (ground arith, λ c. ground arith), λ h. ground (arith, h.1))

  gpu_fits_test :
      (req : WorkloadRequirements F) (g : Option (GpuCapability F))
      → gpu_fits fl req g ≡ vram_test req req.vram_gb g
  unfolding gpu_fits
  gpu_fits_test req g = go req.vram_gb g
    where
      go :
          (v : Option F) (g : Option (GpuCapability F))
          → (elim v [
            | none ↦ true
            | some vram_needed ↦ elim g [
              | none ↦ false
              | some g ↦ not (fl.lt g.vram_gb vram_needed) && not (req.cuda && not g.cuda)
            ]
          ])
            ≡ vram_test req v g
      go none g = refl
      go (some v) none = refl
      go (some v) (some g) = refl

  ram_iff :
      (ram : F) (o : Option F)
      → ((elim o [ none ↦ false | some needed ↦ fl.lt ram needed ]) ≡ false) ↔ RamFits ram o
  ram_iff ram none = (λ e. tt, λ h. refl)
  ram_iff ram (some x) = (λ e. e, λ h. h)

  cores_iff :
      (cores : ℕ) (o : Option ℕ)
      → ((elim o [ none ↦ false | some needed ↦ ltb cores needed ]) ≡ false) ↔ CoresFit cores o
  cores_iff cores none = (λ e. tt, λ h. refl)
  cores_iff cores (some x) = (λ e. ground arith, λ h. ground arith)

  accepts :
      (g r c d : Bool)
      → ((if not g
            then false
            else if r
            then false
            else if c
            then false
            else if d
            then false
            else true)
          ≡ true)
        ↔ ((g ≡ true) × (r ≡ false) × (c ≡ false) × (d ≡ false))
  accepts g r c d = (λ e. ground arith, λ v. ground arith)

  -- The machine accepts a job exactly when the video memory (with CUDA where it is asked), the memory
  -- and the cores suffice and no keyword of the policy stands in the name of the workload.
  can_accept_iff :
      (p : LocalProvider F) (job : Job F) → (can_accept fl p job ≡ true) ↔ IsAcceptable p job
  unfolding can_accept
  can_accept_iff p job = (
    λ e.
        let (g, r, c, d) = (accepts _ _ _ _).0 e in
        record {
          gpu =
              (vram_iff job.requirements _ _).0
                (sym (gpu_fits_test job.requirements p.capability.gpu) ∙ g);
          ram = (ram_iff _ _).0 r;
          cores = (cores_iff _ _).0 c;
          policy = d;
        },
    λ v. (accepts _ _ _ _).1 (
      gpu_fits_test job.requirements p.capability.gpu ∙ (vram_iff job.requirements _ _).1 v.gpu,
      (ram_iff _ _).1 v.ram,
      (cores_iff _ _).1 v.cores,
      v.policy,
    ),
  )

  abbrev finished_job : ℕ → LocalProvider F → Job F → RunResult F → JobRecord F
  finished_job now p job result = record {
    job = job;
    status = completed;
    receipt = some (build_receipt fl job.id p.capability.provider_id now result);
  }

  -- The table after a job, whose run succeeds or not.
  submit_local_ok :
      (run : JobRunner F) (now : ℕ) (p : LocalProvider F) (job : Job F) (result : RunResult F)
      → run job ≡ ok result
      → (submit_local fl run now p job).0
        ≡ record p { jobs = insert ℕ_discrete job.id (finished_job now p job result) p.jobs }
  unfolding submit_local
  submit_local_ok run now p job result h = rw (submit_local, h) refl

  submit_local_err :
      (run : JobRunner F) (now : ℕ) (p : LocalProvider F) (job : Job F) (e : UcxError)
      → run job ≡ err e
      → (submit_local fl run now p job).0 ≡ p
  unfolding submit_local
  submit_local_err run now p job e h = rw (submit_local, h) refl

  -- What a table holds under an id after a run, and under every other id.
  pub record IsKept (run : JobRunner F) (now : ℕ) (p : LocalProvider F) (job : Job F)
      (result : RunResult F) : Type 0 where
    pub finished : status_local (submit_local fl run now p job).0 job.id ≡ ok completed
    pub receipted :
        receipt_local (submit_local fl run now p job).0 job.id
        ≡ ok (build_receipt fl job.id p.capability.provider_id now result)
    pub others :
        (id : ℕ)
        → job.id ≢ id
        → (status_local (submit_local fl run now p job).0 id ≡ status_local p id)
          × (receipt_local (submit_local fl run now p job).0 id ≡ receipt_local p id)

  -- After a job whose run succeeds, its status is completed and its receipt is the one built from the
  -- run's result; the status and the receipt of every other job are as before.
  submit_local-IsKept :
      (run : JobRunner F) (now : ℕ) (p : LocalProvider F) (job : Job F) (result : RunResult F)
      → run job ≡ ok result
      → IsKept run now p job result
  unfolding status_local receipt_local
  submit_local-IsKept run now p job result h = record {
    finished =
        rw
          (
            submit_local_ok run now p job result h,
            status_local,
            lookup-insert_same ℕ_discrete job.id,
          )
          refl;
    receipted =
        rw
          (
            submit_local_ok run now p job result h,
            receipt_local,
            lookup-insert_same ℕ_discrete job.id,
          )
          refl;
    others = λ id other. (
      rw
          (
            submit_local_ok run now p job result h,
            status_local,
            lookup-insert_other ℕ_discrete job.id id _ p.jobs other,
          )
          refl,
      rw
          (
            submit_local_ok run now p job result h,
            receipt_local,
            lookup-insert_other ℕ_discrete job.id id _ p.jobs other,
          )
          refl,
    );
  }

-- What happens to a local provider.
module _ {F : Type 0} (fl : Floats F) (run : JobRunner F) where
  pub data Step (p : LocalProvider F) : LocalProvider F → Type 0 where
    submitted : (now : ℕ) (job : Job F) → Step p (submit_local fl run now p job).0
    cancelling : (id : ℕ) → Step p (cancel_local p id).0

  pub data Reach (p : LocalProvider F) : LocalProvider F → Type 0 where
    here : Reach p p
    next : {q r : LocalProvider F} → Reach p q → Step q r → Reach p r

  abbrev status_of : Option (JobRecord F) → JobStatus
  status_of none = completed
  status_of (some r) = r.status

  -- Every job in the table is completed.
  abbrev IsDone : LocalProvider F → Type 0
  IsDone p = (id : ℕ) → status_of (lookup ℕ_discrete id p.jobs) ≡ completed

  cancel-none :
      (p : LocalProvider F) → IsDone p → (id : ℕ) → cancel_local p id ≡ (p, err (job_not_found id))
  unfolding cancel_local
  cancel-none p done id = elim (Option-cases (lookup ℕ_discrete id p.jobs)) [
    | inl e ↦ rw (cancel_local, e) refl
    | inr (r, e) ↦ rw (cancel_local, e, ap status_of (sym e) ∙ done id) refl
  ]

  ite_done :
      {P : Type 0} (x : Dec P) (r : JobRecord F) (o : Option (JobRecord F))
      → r.status ≡ completed
      → status_of o ≡ completed
      → status_of (ite x (some r) o) ≡ completed
  ite_done (yes p) r o h k = h
  ite_done (no p) r o h k = k

  submit-IsDone :
      (now : ℕ) (p : LocalProvider F) (job : Job F)
      → IsDone p
      → IsDone (submit_local fl run now p job).0
  submit-IsDone now p job done id = elim (Result-cases (run job)) [
    | inr (e, eq) ↦ rw (submit_local_err fl run now p job e eq) (done id)
    | inl (result, eq) ↦
        rw (submit_local_ok fl run now p job result eq, lookup-insert ℕ_discrete job.id id)
          (ite_done (ℕ_discrete job.id id) _ (lookup ℕ_discrete id p.jobs) refl (done id))
  ]

  Reach-done :
      {p q : LocalProvider F}
      → IsDone p
      → Reach p q
      → (id : ℕ) → status_of (lookup ℕ_discrete id q.jobs) ≡ completed
  Reach-done done here id' = done id'
  Reach-done done (next path (submitted now job)) id' =
      submit-IsDone now _ job (Reach-done done path) id'
  Reach-done done (next path (cancelling id)) id' =
      ap (λ r. status_of (lookup ℕ_discrete id' r.0.jobs)) (cancel-none _ (Reach-done done path) id)
      ∙ Reach-done done path id'

  -- From an empty table, no job can ever be cancelled: whatever has been submitted, a cancellation
  -- changes nothing and answers that the job is not found, also for a job that is in the table.
  pub cancel_local_never :
      (p q : LocalProvider F)
      → p.jobs ≡ []
      → Reach p q
      → (id : ℕ) → cancel_local q id ≡ (q, err (job_not_found id))
  unfolding lookup
  cancel_local_never p q fresh path id = cancel-none q (Reach-done (λ i. rw fresh refl) path) id
