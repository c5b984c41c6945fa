-- ===== src/ControlPlane/Jobs.antt =====
-- controlplane/jobs.py. A critical section under the lock is one call here, so a history of calls is
-- an interleaving of the threads. The clock, the liveness of threads and the fresh thread of a start
-- are arguments, and so is the stale threshold that the environment gives.
pub mod Ownership
use cobol_java_migrator_v.Prelude.{
  ℕ, ◌-◌, String, Bool, true, false, not, ◌&&◌, ◌||◌, Option, none, some, if◌then◌else◌, leb, eqb,
  pair_eq, string_eq, ◌==◌,
}
use cobol_java_migrator_v.Prelude.Dict.{Dict, get, put, pop}

-- (kind, workspace)
abbrev pub Key : Type 0
Key = String × String

pub data Status : Type 0 where
  running done incomplete partial failed : Status

abbrev is_running : Status → Bool
is_running running = true
is_running _ = false

-- Results are of any type.
pub record Job (R : Type 0) : Type 0 where
  pub status : Status
  pub started_at : ℕ
  pub finished_at : Option ℕ
  pub result : Option R
  pub error : Option String

pub record JobRunner (R : Type 0) : Type 0 where
  pub jobs : Dict Key (Job R)
  pub threads : Dict Key ℕ

-- What the job's function did: it returned, perhaps with a `_job_status`, or it raised.
pub data Outcome (R : Type 0) : Type 0 where
  returned : (job_status : Option String) → R → Outcome R
  raised : (error : String) → Outcome R

requested : Option String → Status
requested none = done
requested (some s) =
    if s == "incomplete" then incomplete else if s == "partial" then partial else done

-- The current worker is this one.
owns : ℕ → Option ℕ → Bool
owns owner none = false
owns owner (some t) = eqb t owner

-- A registered worker has died; a missing one is no proof of death.
dead : (ℕ → Bool) → Option ℕ → Bool
dead alive none = false
dead alive (some t) = not (alive t)

module _ {R : Type 0} where
  abbrev pub get_job : Key → JobRunner R → Option (Job R)
  get_job k r = get k r.jobs

  abbrev pub worker : Key → JobRunner R → Option ℕ
  worker k r = get k r.threads

  pub outcome_status : Outcome R → Status
  unfolding requested
  outcome_status (returned job_status result) = requested job_status
  outcome_status (raised error) = failed

  pub outcome_result : Outcome R → Option R
  outcome_result (returned job_status result) = some result
  outcome_result (raised error) = none

  pub outcome_error : Outcome R → Option String
  outcome_error (returned job_status result) = none
  outcome_error (raised error) = some error

  finished_job : Outcome R → ℕ → Option (Job R) → Job R
  unfolding outcome_status outcome_result outcome_error
  finished_job o now none = record {
    status = outcome_status o;
    started_at = now;
    finished_at = some now;
    result = outcome_result o;
    error = outcome_error o;
  }
  finished_job o now (some job) = record {
    status = outcome_status o;
    started_at = job.started_at;
    finished_at = some now;
    result = outcome_result o;
    error = outcome_error o;
  }

  -- `_finish` past its ownership test.
  write : Key → Outcome R → ℕ → JobRunner R → JobRunner R
  write k o now r = record {
    jobs = put k (finished_job o now (get_job k r)) r.jobs;
    threads = pop k r.threads;
  }

  -- `_finish` by a worker thread; an inline run has no owner to test.
  pub finish : Key → Option ℕ → Outcome R → ℕ → JobRunner R → JobRunner R
  unfolding write owns
  finish k none o now r = write k o now r
  finish k (some owner) o now r = if owns owner (worker k r) then write k o now r else r

  module _ (alive : ℕ → Bool) (stale_after now : ℕ) where
    is_stale : Key → Job R → JobRunner R → Bool
    unfolding dead
    is_stale k job r = dead alive (worker k r) || leb stale_after (now - job.started_at)

    -- The job is running and may not be superseded.
    is_blocked : Option (Job R) → Key → JobRunner R → Bool
    unfolding is_stale
    is_blocked none k r = false
    is_blocked (some job) k r = is_running job.status && not (is_stale k job r)

    pub fresh_job : Job R
    fresh_job = record {
      status = running;
      started_at = now;
      finished_at = none;
      result = none;
      error = none;
    }

    -- The worker of a stale job is forgotten.
    released : Option (Job R) → Key → JobRunner R → Dict Key ℕ
    released none k r = r.threads
    released (some job) k r = if is_running job.status then pop k r.threads else r.threads

    -- A superseded job is marked failed and at once replaced, so only the replacement shows.
    register : Key → Option ℕ → JobRunner R → JobRunner R
    unfolding fresh_job released
    register k none r = record {
      jobs = put k fresh_job r.jobs;
      threads = released (get_job k r) k r;
    }
    register k (some t) r = record {
      jobs = put k fresh_job r.jobs;
      threads = put k t (released (get_job k r) k r);
    }

    -- `start` with a fresh worker thread; the flag says whether the thread was started.
    pub start : Key → ℕ → JobRunner R → Bool × JobRunner R
    unfolding is_blocked register
    start k thread r =
        if is_blocked (get_job k r) k r then (false, r) else (true, register k (some thread) r)

    -- `start` with `inline` set: the function runs at once, and its finish follows.
    start_inline : Key → Outcome R → JobRunner R → JobRunner R
    unfolding is_blocked register
    start_inline k o r =
        if is_blocked (get_job k r) k r then r else finish k none o now (register k none r)
