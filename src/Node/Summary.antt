-- ===== src/Node/Summary.antt =====
-- What the child jobs of a swarm of sovereign-node/src/swarm.rs come to once all of them have ended.
use sovereign_stack.Base.{
  ℕ, ◌+◌, ◌≤◌, ◌≡◌, ◌↔◌, refl, true, Option, none, some, List, [], ◌∷◌, Text, All, length, count_if,
  false, if◌then◌else◌, arith,
}
use sovereign_stack.Node.Swarm.{
  Job, JobStatus, queued, SwarmStatus, Harvest, CaptureComplete, all_failed, partially_failed,
  is_done, is_completed, is_failed, is_running, harvest, harvest_one, first_or_default, rest_of,
  final_status,
}

-- A child job that the store holds as completed or failed.
abbrev pub HasEnded : Option Job → Type 0
HasEnded none = ⊥
HasEnded (some j) = elim j.status [
  | JobStatus.completed _ _ _ _ _ ↦ Unit
  | JobStatus.failed _ ↦ Unit
  | _ ↦ ⊥
]

-- What the child jobs of a swarm come to, each with the device and the id at its place.
pub data Sums
    : List (Option Job)
      → (device_ids child_jobs twins receipts lost : List Text) → List CaptureComplete
      → Type 0 where
  nothing : {ds is : List Text} → Sums [] ds is [] [] [] []
  a_twin :
      {j : Job} {jobs : List (Option Job)} {ds is ts rs ls : List Text} {es : List CaptureComplete}
      {twin_id scene_receipt_id capture_receipt_id : Text} {object : Option Text} {n : ℕ}
      → j.status ≡ JobStatus.completed twin_id scene_receipt_id capture_receipt_id object n
      → Sums jobs (rest_of ds) (rest_of is) ts rs ls es
      → Sums (some j ∷ jobs) ds is (twin_id ∷ ts) (scene_receipt_id ∷ rs) ls (
          record {
            twin_id = twin_id;
            device_id = first_or_default ds;
            receipt_id = scene_receipt_id;
            job_id = first_or_default is;
          }
          ∷ es)
  a_loss :
      {j : Job} {jobs : List (Option Job)} {ds is ts rs ls : List Text} {es : List CaptureComplete}
      {reason : Text}
      → j.status ≡ JobStatus.failed reason
      → Sums jobs (rest_of ds) (rest_of is) ts rs ls es
      → Sums (some j ∷ jobs) ds is ts rs (first_or_default ds ∷ ls) es

-- The status for the twins, their receipts and the devices that failed, of `total`.
pub data Verdict (total : ℕ) : (twins receipts lost : List Text) → SwarmStatus → Type 0 where
  complete : {ts rs : List Text} → Verdict total ts rs [] (SwarmStatus.completed ts rs)
  fully_failed :
      {rs ls : List Text} {l : Text}
      → Verdict total [] rs (l ∷ ls) (SwarmStatus.failed (all_failed total))
  partial :
      {ts rs ls : List Text} {t l : Text}
      → Verdict total (t ∷ ts) rs (l ∷ ls) (partially_failed (t ∷ ts) (l ∷ ls))

one_ends :
    (o : Option Job)
    → HasEnded o
    → ((if is_completed o then 1 else 0) + (if is_failed o then 1 else 0) ≡ 1)
      × (is_running o ≡ false)
one_ends none h = absurd h
one_ends (some j) h = ground arith

one_count :
    (o : Option Job) → (if is_completed o then 1 else 0) + (if is_failed o then 1 else 0) ≤ 1
one_count none = omega arith
one_count (some j) = ground arith

one_ended :
    (o : Option Job)
    → (if is_completed o then 1 else 0) + (if is_failed o then 1 else 0) ≡ 1
    → HasEnded o
one_ended none h = absurd (omega arith)
one_ended (some j) h = ground arith

counts_ended :
    (jobs : List (Option Job))
    → All HasEnded jobs
    → (count_if is_completed jobs + count_if is_failed jobs ≡ length jobs)
      × (count_if is_running jobs ≡ 0)
counts_ended [] h = (refl, refl)
counts_ended (o ∷ jobs) (e, h) = ground (arith, one_ends o e, counts_ended jobs h)

counts_le :
    (jobs : List (Option Job)) → count_if is_completed jobs + count_if is_failed jobs ≤ length jobs
counts_le [] = omega arith
counts_le (o ∷ jobs) = omega (arith, one_count o, counts_le jobs)

ended_counts :
    (jobs : List (Option Job))
    → count_if is_completed jobs + count_if is_failed jobs ≡ length jobs
    → All HasEnded jobs
ended_counts [] h = tt
ended_counts (o ∷ jobs) h = (
  one_ended o (omega (arith, h, one_count o, counts_le jobs)),
  ended_counts jobs (omega (arith, h, one_count o, counts_le jobs)),
)

-- The monitor is done exactly when every child job has completed or failed.
pub is_done_iff :
    (jobs : List (Option Job)) → (is_done (length jobs) jobs ≡ true) ↔ All HasEnded jobs
unfolding is_done
is_done_iff jobs = (λ h. ended_counts jobs (ground arith), λ h. ground (arith, counts_ended jobs h))

module _ (j : Job) (jobs : List (Option Job)) (ds is : List Text) (h : Harvest) where
  abbrev With : JobStatus → Type 0
  With st =
      let k =
        harvest_one (some (record j { status = st })) (first_or_default ds) (first_or_default is)
          h in
      Sums (some j ∷ jobs) ds is k.twin_ids k.receipt_ids k.failed_devs k.events

  one_more :
      (st : JobStatus)
      → j.status ≡ st
      → HasEnded (some (record j { status = st }))
      → Sums jobs (rest_of ds) (rest_of is) h.twin_ids h.receipt_ids h.failed_devs h.events
      → With st
  one_more (JobStatus.completed t r c o n) e ended sums = a_twin e sums
  one_more (JobStatus.failed reason) e ended sums = a_loss e sums
  one_more queued e ended sums = absurd ended
  one_more JobStatus.running e ended sums = absurd ended

-- The harvest of jobs that have all ended is what they come to.
pub harvest-Sums :
    (jobs : List (Option Job)) (ds is : List Text)
    → All HasEnded jobs
    → let h = harvest jobs ds is in Sums jobs ds is h.twin_ids h.receipt_ids h.failed_devs h.events
unfolding harvest
harvest-Sums [] ds is h = nothing
harvest-Sums (none ∷ jobs) ds is h = absurd h.0
harvest-Sums (some j ∷ jobs) ds is h =
    one_more j jobs ds is (harvest jobs (rest_of ds) (rest_of is)) j.status refl h.0
      (harvest-Sums jobs (rest_of ds) (rest_of is) h.1)

verdict :
    (total : ℕ) (ts rs ls : List Text) (es : List CaptureComplete)
    → Verdict total ts rs ls (
        final_status total
          (record { twin_ids = ts; receipt_ids = rs; failed_devs = ls; events = es }))
unfolding final_status
verdict total ts rs [] es = complete
verdict total [] rs (l ∷ ls) es = fully_failed
verdict total (t ∷ ts) rs (l ∷ ls) es = partial

pub final_status-Verdict :
    (total : ℕ) (h : Harvest)
    → Verdict total h.twin_ids h.receipt_ids h.failed_devs (final_status total h)
final_status-Verdict total h = verdict total h.twin_ids h.receipt_ids h.failed_devs h.events
