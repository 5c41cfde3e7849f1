-- ===== src/Node/Swarm.antt =====
-- sovereign-node/src/jobs.rs and swarm.rs: the stores of jobs and swarms and the monitor of a swarm.
-- What the job store answers at each poll for each job is an argument, since other tasks change it
-- meanwhile.
use sovereign_stack.Base.{
  ℕ, zero, suc, ◌+◌, ◌*◌, Bool, true, false, ◌&&◌, Option, none, some, List, [], ◌∷◌, map, Text,
  Text_discrete, Dict, lookup, insert, modify, is_empty, length, count_if, ◌==◌, if◌then◌else◌,
}

pub data JobStatus : Type 0 where
  queued running : JobStatus
  completed :
      (twin_id scene_receipt_id capture_receipt_id : Text) (sui_object_id : Option Text)
      (dip_message_count : ℕ)
      → JobStatus
  failed : (reason : Text) → JobStatus

pub record Job : Type 0 where
  pub job_id : Text
  pub device_id : Text
  pub status : JobStatus
  pub created_at : ℕ
  pub updated_at : ℕ

unfoldable pub new_job : (job_id device_id : Text) → ℕ → Job
new_job job_id device_id now = record {
  job_id = job_id;
  device_id = device_id;
  status = queued;
  created_at = now;
  updated_at = now;
}

abbrev pub JobStore : Type 0
JobStore = Dict Text Job

unfoldable pub insert_job : JobStore → Job → JobStore
insert_job store job = insert Text_discrete job.job_id job store

unfoldable pub get_job : JobStore → Text → Option Job
get_job store id = lookup Text_discrete id store

-- in no order that is documented
unfoldable pub all_jobs : JobStore → List Job
all_jobs store = map (λ e. e.1) store

unfoldable pub update_job : JobStore → Text → JobStatus → ℕ → JobStore
update_job store id status now =
    modify Text_discrete id (λ job. record job { status = status; updated_at = now }) store

-- The reasons are the two that the monitor gives.
pub data FailureReason : Type 0 where
  all_failed : (total : ℕ) → FailureReason
  timed_out : FailureReason

pub data SwarmStatus : Type 0 where
  pending : SwarmStatus
  running : (completed total : ℕ) → SwarmStatus
  completed : (twin_ids receipt_ids : List Text) → SwarmStatus
  partially_failed : (twin_ids failed : List Text) → SwarmStatus
  failed : FailureReason → SwarmStatus

pub record SwarmJob : Type 0 where
  pub swarm_id : Text
  pub device_ids : List Text
  pub child_jobs : List Text
  pub status : SwarmStatus
  pub created_at : ℕ
  pub updated_at : ℕ

abbrev pub SwarmStore : Type 0
SwarmStore = Dict Text SwarmJob

unfoldable pub insert_swarm : SwarmStore → SwarmJob → SwarmStore
insert_swarm store job = insert Text_discrete job.swarm_id job store

unfoldable pub get_swarm : SwarmStore → Text → Option SwarmJob
get_swarm store id = lookup Text_discrete id store

unfoldable pub update_status : SwarmStore → Text → SwarmStatus → ℕ → SwarmStore
update_status store id status now =
    modify Text_discrete id (λ job. record job { status = status; updated_at = now }) store

-- `TwinEvent::CaptureComplete`
pub record CaptureComplete : Type 0 where
  pub twin_id : Text
  pub device_id : Text
  pub receipt_id : Text
  pub job_id : Text

abbrev pub is_completed : Option Job → Bool
is_completed none = false
is_completed (some j) = elim j.status [ JobStatus.completed _ _ _ _ _ ↦ true | _ ↦ false ]

abbrev pub is_failed : Option Job → Bool
is_failed none = false
is_failed (some j) = elim j.status [ JobStatus.failed _ ↦ true | _ ↦ false ]

abbrev pub is_running : Option Job → Bool
is_running none = false
is_running (some j) = elim j.status [
  | JobStatus.running ↦ true
  | JobStatus.queued ↦ true
  | _ ↦ false
]

-- nothing is running or queued, and all have ended
unfoldable pub is_done : ℕ → List (Option Job) → Bool
is_done total jobs =
    count_if is_running jobs == 0 && (count_if is_completed jobs + count_if is_failed jobs) == total

-- `device_ids.get(i).cloned().unwrap_or_default()` for each `i` in turn
abbrev pub first_or_default : List Text → Text
first_or_default [] = []
first_or_default (d ∷ ds) = d

abbrev pub rest_of : List Text → List Text
rest_of [] = []
rest_of (d ∷ ds) = ds

pub record Harvest : Type 0 where
  pub twin_ids : List Text
  pub receipt_ids : List Text
  pub failed_devs : List Text
  pub events : List CaptureComplete

abbrev pub harvest_one : Option Job → (dev_id job_id : Text) → Harvest → Harvest
harvest_one none dev_id job_id h = record h { failed_devs = dev_id ∷ h.failed_devs }
harvest_one (some j) dev_id job_id h = elim j.status [
  | JobStatus.completed twin_id receipt_id _ _ _ ↦ record h {
    twin_ids = twin_id ∷ h.twin_ids;
    receipt_ids = receipt_id ∷ h.receipt_ids;
    events =
        record { twin_id = twin_id; device_id = dev_id; receipt_id = receipt_id; job_id = job_id }
        ∷ h.events;
  }
  | _ ↦ record h { failed_devs = dev_id ∷ h.failed_devs }
]

-- the loop over the jobs that have ended
unfoldable pub harvest : List (Option Job) → (device_ids child_jobs : List Text) → Harvest
harvest [] devs ids = record { twin_ids = []; receipt_ids = []; failed_devs = []; events = [] }
harvest (job ∷ jobs) devs ids =
    harvest_one job (first_or_default devs) (first_or_default ids)
      (harvest jobs (rest_of devs) (rest_of ids))

unfoldable pub final_status : ℕ → Harvest → SwarmStatus
final_status total h =
    if is_empty h.failed_devs
    then SwarmStatus.completed h.twin_ids h.receipt_ids
    else if is_empty h.twin_ids
    then SwarmStatus.failed (all_failed total)
    else partially_failed h.twin_ids h.failed_devs

-- one poll every 2 seconds, up to 15 minutes
abbrev pub max_polls : ℕ
max_polls = 450

module _ (swarm_id : Text) (device_ids child_jobs : List Text) (view : ℕ → Text → Option Job)
    (clock : ℕ → ℕ) where
  -- Each update of the store reads the clock once, so that each has a number.
  -- the polls from the `k`-th on, of which `n` are left
  unfoldable pub poll_from : ℕ → ℕ → SwarmStore → SwarmStore × List CaptureComplete
  poll_from zero k store =
      (update_status store swarm_id (SwarmStatus.failed timed_out) (clock (2 * k + 1)), [])
  poll_from (suc n) k store =
      let jobs = map (view k) child_jobs in
      let total = length child_jobs in
      let counted =
        update_status store swarm_id
          (SwarmStatus.running (count_if is_completed jobs + count_if is_failed jobs) total)
          (clock (2 * k + 1)) in
      let rest = poll_from n (suc k) counted in
      if is_done total jobs
      then (
        update_status counted swarm_id (final_status total (harvest jobs device_ids child_jobs))
            (clock (2 * k + 2)),
        (harvest jobs device_ids child_jobs).events,
      )
      else rest

  unfoldable pub monitor_swarm : SwarmStore → SwarmStore × List CaptureComplete
  unfolding poll_from
  monitor_swarm store =
      poll_from max_polls 0
        (update_status store swarm_id (SwarmStatus.running 0 (length child_jobs)) (clock 0))
