-- ===== src/Node/Monitor.antt =====
-- How the monitor of sovereign-node/src/swarm.rs ends, and what it reports.
use sovereign_stack.Base.{
  ℕ, zero, suc, ◌+◌, ◌*◌, ◌<◌, ◌≡◌, ◌↔◌, ◌⊎◌, refl, subst, sym, ap, ◌∙◌, inl, inr, ite, true,
  Bool-cases, Option, none, some, List, [], ◌∷◌, map, Text, Text_discrete, ℕ_discrete, lookup,
  map_option, lookup-modify, length, count_if, All, arith,
}
use sovereign_stack.Node.Swarm.{
  Job, SwarmStatus, SwarmJob, SwarmStore, CaptureComplete, timed_out, get_swarm, update_status,
  is_done, is_completed, is_failed, harvest, final_status, poll_from, monitor_swarm, max_polls,
}
use sovereign_stack.Node.Summary.{
  HasEnded, Sums, Verdict, is_done_iff, harvest-Sums, final_status-Verdict,
}

abbrev pub status_of : Option SwarmJob → Option SwarmStatus
status_of none = none
status_of (some job) = some job.status

-- The status of a swarm, if it is in the store.
abbrev pub status_at : SwarmStore → Text → Option SwarmStatus
status_at store id = status_of (get_swarm store id)

set :
    {k : Text} (d : Dec (k ≡ k)) (o : Option SwarmJob) (f : SwarmJob → SwarmJob)
    (st s : SwarmStatus)
    → ((job : SwarmJob) → (f job).status ≡ st)
    → status_of o ≡ some s
    → status_of (ite d (map_option Text_discrete f o) o) ≡ some st
set (no p) o f st s g h = absurd (p refl)
set (yes p) none f st s g h = cc
set (yes p) (some job) f st s g h = ap some (g job)

status_at-update :
    (store : SwarmStore) (id : Text) (st s : SwarmStatus) (now : ℕ)
    → status_at store id ≡ some s
    → status_at (update_status store id st now) id ≡ some st
unfolding get_swarm update_status
status_at-update store id st s now h =
    ap status_of (lookup-modify Text_discrete id id _ store)
    ∙ set (Text_discrete id id) (lookup Text_discrete id store) _ st s (λ job. refl) h

module _ (swarm_id : Text) (device_ids child_jobs : List Text) (view : ℕ → Text → Option Job)
    (clock : ℕ → ℕ) where
  abbrev total : ℕ
  total = length child_jobs

  -- What the `i`th poll sees of the child jobs.
  abbrev pub seen : ℕ → List (Option Job)
  seen i = map (view i) child_jobs

  -- A poll among the first `n` is the first at which every child job has ended, and the status
  -- and the events are what these jobs come to.
  pub record Settles (n : ℕ) (st : SwarmStatus) (events : List CaptureComplete) : Type 0 where
    pub poll : ℕ
    pub in_time : poll < n
    pub ended : All HasEnded (seen poll)
    pub first : (i : ℕ) → i < poll → ¬ All HasEnded (seen i)
    pub twins : List Text
    pub receipts : List Text
    pub lost : List Text
    pub sums : Sums (seen poll) device_ids child_jobs twins receipts lost events
    pub verdict : Verdict total twins receipts lost st

  -- At none of the first `n` polls has every child job ended, and nothing is announced.
  pub record TimesOut (n : ℕ) (st : SwarmStatus) (events : List CaptureComplete) : Type 0 where
    pub never : (i : ℕ) → i < n → ¬ All HasEnded (seen i)
    pub status : st ≡ SwarmStatus.failed timed_out
    pub silent : events ≡ []

  abbrev Poll : ℕ → ℕ → SwarmStore → SwarmStore × List CaptureComplete
  Poll n k store = poll_from swarm_id device_ids child_jobs view clock n k store

  length-seen : (i : ℕ) (ids : List Text) → length (map (view i) ids) ≡ length ids
  length-seen i [] = refl
  length-seen i (id ∷ ids) = ap suc (length-seen i ids)

  done_iff : (i : ℕ) → (is_done total (seen i) ≡ true) ↔ All HasEnded (seen i)
  done_iff i =
      subst (λ n. (is_done n (seen i) ≡ true) ↔ All HasEnded (seen i)) (length-seen i child_jobs)
        (is_done_iff (seen i))

  unsettled_next :
      (k i : ℕ)
      → ((j : ℕ) → j < k → ¬ All HasEnded (seen j))
      → ¬ All HasEnded (seen k)
      → i < suc k
      → ¬ All HasEnded (seen i)
  unsettled_next k i before here h = elim (ℕ_discrete i k) [
    | yes e ↦ subst (λ j. ¬ All HasEnded (seen j)) (sym e) here
    | no other ↦ before i (ground (arith, other))
  ]

  polls :
      (n k : ℕ) (store : SwarmStore) (s : SwarmStatus)
      → ((j : ℕ) → j < k → ¬ All HasEnded (seen j))
      → status_at store swarm_id ≡ some s
      → (st : SwarmStatus) × (status_at (Poll n k store).0 swarm_id ≡ some st)
        × (Settles (k + n) st (Poll n k store).1 ⊎ TimesOut (k + n) st (Poll n k store).1)
  unfolding poll_from
  polls zero k store s before h = (
    SwarmStatus.failed timed_out,
    status_at-update store swarm_id (SwarmStatus.failed timed_out) s (clock (2 * k + 1)) h,
    inr (record { never = λ i less. before i (omega arith); status = refl; silent = refl }),
  )
  polls (suc n) k store s before h =
      let counting =
        SwarmStatus.running (count_if is_completed (seen k) + count_if is_failed (seen k)) total in
      let counted = update_status store swarm_id counting (clock (2 * k + 1)) in
      let going = status_at-update store swarm_id counting s (clock (2 * k + 1)) h in
      let h = harvest (seen k) device_ids child_jobs in
      elim (Bool-cases (is_done total (seen k))) [
        | inl done ↦
            let ended = (done_iff k).0 done in
            (
              final_status total h,
              rw (Poll, poll_from, done)
                  (status_at-update counted swarm_id (final_status total h) counting
                    (clock (2 * k + 2)) going),
              inl (
                  rw (Poll, poll_from, done)
                    (record {
                      poll = k;
                      in_time = omega arith;
                      ended = ended;
                      first = before;
                      twins = h.twin_ids;
                      receipts = h.receipt_ids;
                      lost = h.failed_devs;
                      sums = harvest-Sums (seen k) device_ids child_jobs ended;
                      verdict = final_status-Verdict total h;
                    })),
            )
        | inr waits ↦
            let going_on : ¬ All HasEnded (seen k) = λ all. cc (waits, (done_iff k).1 all) in
            let (st, e, outcome) =
              polls n (suc k) counted counting (λ i less. unsettled_next k i before going_on less)
                going in
            (
              st,
              rw (Poll, poll_from, waits) e,
              rw (Poll, poll_from, waits)
                  (subst
                    (λ m.
                      Settles m st (Poll n (suc k) counted).1
                      ⊎ TimesOut m st (Poll n (suc k) counted).1)
                    (omega arith) outcome),
            )
      ]

  -- The monitor of a swarm that is in the store ends after at most 450 polls. At the first poll at
  -- which the job store holds every child job as completed or failed, it leaves the swarm
  -- completed, with the twins and the receipts, if no job failed, failed if all did, and partially
  -- failed, with the twins and the devices of the failed jobs, otherwise, and announces each
  -- completed job with its device in the order of the jobs. If there was no such poll it leaves the
  -- swarm failed for the lack of time and announces nothing.
  pub monitor_swarm_ends :
      (store : SwarmStore) (s : SwarmStatus)
      → status_at store swarm_id ≡ some s
      → (st : SwarmStatus) × (status_at
            (monitor_swarm swarm_id device_ids child_jobs view clock store).0
            swarm_id
          ≡ some st)
        × (Settles max_polls st (monitor_swarm swarm_id device_ids child_jobs view clock store).1
            ⊎ TimesOut max_polls st
                (monitor_swarm swarm_id device_ids child_jobs view clock store).1)
  unfolding monitor_swarm
  monitor_swarm_ends store s h =
      polls max_polls 0 (update_status store swarm_id (SwarmStatus.running 0 total) (clock 0))
        (SwarmStatus.running 0 total) (λ j less. absurd (ground arith))
        (status_at-update store swarm_id (SwarmStatus.running 0 total) s (clock 0) h)
