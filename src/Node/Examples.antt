-- ===== src/Node/Examples.antt =====
-- A swarm of two devices of sovereign-node at concrete values.
use sovereign_stack.Base.{
  ℕ, zero, suc, ◌≡◌, ◌⊎◌, refl, Option, none, some, List, [], ◌∷◌, Text, Text_discrete, text,
  lookup, eqb, if◌then◌else◌,
}
use sovereign_stack.Node.Swarm.{
  Job, JobStatus, SwarmStatus, SwarmStore, monitor_swarm, max_polls, get_swarm, poll_from, is_done,
  harvest,
}
use sovereign_stack.Node.Monitor.{status_at, Settles, TimesOut, monitor_swarm_ends}

abbrev devices : List Text
devices = text "go2:1" ∷ text "go2:2" ∷ []

abbrev children : List Text
children = text "job:a" ∷ text "job:b" ∷ []

abbrev first_job : Job
first_job = record {
  job_id = text "job:a";
  device_id = text "go2:1";
  status = JobStatus.completed (text "twin:1") (text "rcpt:1") (text "rcpt:0") none 1;
  created_at = 0;
  updated_at = 4;
}

abbrev second_job : Job
second_job = record first_job {
  job_id = text "job:b";
  device_id = text "go2:2";
  status = JobStatus.failed (text "lost");
}

abbrev first_view : ℕ → Job
first_view zero = record first_job { status = JobStatus.running }
first_view (suc _) = first_job

abbrev view : ℕ → Text → Option Job
view k id =
    if eqb Text_discrete id (text "job:a")
    then some (first_view k)
    else if eqb Text_discrete id (text "job:b")
    then some second_job
    else none

abbrev clock : ℕ → ℕ
clock k = k

abbrev store : SwarmStore
store =
    (
      text "swarm:1",
      record {
        swarm_id = text "swarm:1";
        device_ids = devices;
        child_jobs = children;
        status = SwarmStatus.pending;
        created_at = 0;
        updated_at = 0;
      },
    )
    ∷ []

waiting : status_at store (text "swarm:1") ≡ some SwarmStatus.pending
unfolding get_swarm lookup Text_discrete
waiting = refl

-- The second poll is the first at which both jobs have ended.
announced_once :
    (monitor_swarm (text "swarm:1") devices children view clock store).1
    ≡ record {
      twin_id = text "twin:1";
      device_id = text "go2:1";
      receipt_id = text "rcpt:1";
      job_id = text "job:a";
    }
      ∷ []
unfolding monitor_swarm poll_from is_done harvest Text_discrete
announced_once = refl

monitor_swarm_ends_example :
    (st : SwarmStatus) × (status_at
        (monitor_swarm (text "swarm:1") devices children view clock store).0
        (text "swarm:1")
      ≡ some st)
    × (Settles
          (text "swarm:1")
          devices
          children
          view
          clock
          max_polls
          st
          (monitor_swarm (text "swarm:1") devices children view clock store).1
        ⊎ TimesOut
            (text "swarm:1")
            devices
            children
            view
            clock
            max_polls
            st
            (monitor_swarm (text "swarm:1") devices children view clock store).1)
monitor_swarm_ends_example =
    monitor_swarm_ends (text "swarm:1") devices children view clock store SwarmStatus.pending
      waiting
