-- ===== src/ControlPlane/Jobs/Ownership.antt =====
-- Which worker's result a job shows, and when a job is started twice.
mod Examples
use cobol_java_migrator_v.Prelude.{
  ℕ, ◌-◌, ◌<◌, ◌≡◌, ◌≢◌, refl, Bool, true, false, Option, none, some, List, [], ◌∷◌, if◌then◌else◌,
  pair_eq, string_eq, arith, ◌⊎◌, inl, inr, Eq, All,
}
use cobol_java_migrator_v.Prelude.Dict.{get, put, get-put, get-pop}
use cobol_java_migrator_v.ControlPlane.Jobs.{
  Key, Job, JobRunner, Outcome, get_job, worker, write, owns, finish, start, is_blocked, is_stale,
  register, outcome_status, outcome_result, outcome_error, fresh_job, dead, finished_job, released,
}

abbrev key_eq : Eq Key
key_eq = pair_eq

module _ {R : Type 0} (k j : Key) where
  get_job-write :
      (o : Outcome R) (now : ℕ) (r : JobRunner R)
      → get_job j (write k o now r)
        ≡ (if key_eq.beq k j then some (finished_job o now (get_job k r)) else get_job j r)
  unfolding write
  get_job-write o now r = get-put k j _ r.jobs

  worker-write :
      (o : Outcome R) (now : ℕ) (r : JobRunner R)
      → worker j (write k o now r) ≡ (if key_eq.beq k j then none else worker j r)
  unfolding write
  worker-write o now r = get-pop k j r.threads

  module _ (alive : ℕ → Bool) (stale_after now : ℕ) (t : ℕ) (r : JobRunner R) where
    abbrev registered : JobRunner R
    registered = register alive stale_after now k (some t) r

    get_job-register :
        get_job j registered
        ≡ (if key_eq.beq k j then some (fresh_job alive stale_after now) else get_job j r)
    unfolding register
    get_job-register = get-put k j _ r.jobs

    get-released :
        (o : Option (Job R)) → k ≢ j → get j (released alive stale_after now o k r) ≡ worker j r
    unfolding released
    get-released none other = refl
    get-released (some job) other = ground (arith, get-pop k j r.threads, key_eq.beq_iff k j)

    worker-register :
        (k ≡ j → worker j registered ≡ some t) × (k ≢ j → worker j registered ≡ worker j r)
    unfolding register
    worker-register = (
      λ same. ground (arith, put_get, key_eq.beq_iff k j),
      λ other. ground (arith, put_get, key_eq.beq_iff k j, get-released (get_job k r) other),
    )
      where
        put_get : get j (put k t (released alive stale_after now (get_job k r) k r)) ≡ (
            if key_eq.beq k j
            then some t
            else get j (released alive stale_after now (get_job k r) k r))
        put_get = get-put k j t (released alive stale_after now (get_job k r) k r)

-- A call of the runner, with the clock and the liveness of the threads as it finds them.
pub data Call (R : Type 0) : Type 0 where
  starts : (k : Key) (thread : ℕ) (alive : ℕ → Bool) (stale_after now : ℕ) → Call R
  finishes : (k : Key) (owner : ℕ) (o : Outcome R) (now : ℕ) → Call R

module _ {R : Type 0} where
  pub step : JobRunner R → Call R → JobRunner R
  step r (starts k t alive stale_after now) = (start alive stale_after now k t r).1
  step r (finishes k owner o now) = finish k (some owner) o now r

  pub run : JobRunner R → List (Call R) → JobRunner R
  run r [] = r
  run r (c ∷ cs) = run (step r c) cs

  -- A call on another job, or the finish of another worker of this one.
  abbrev IsOther : Key → ℕ → Call R → Type 0
  IsOther k t (starts j u alive stale_after now) = j ≢ k
  IsOther k t (finishes j owner o now) = (j ≢ k) ⊎ (owner ≢ t)

  record Holds (k : Key) (t : ℕ) (job : Job R) (r : JobRunner R) : Type 0 where
    shown : get_job k r ≡ some job
    owned : worker k r ≡ some t

  finish-Holds :
      (k j : Key) (t owner : ℕ) (o : Outcome R) (now : ℕ) (job : Job R) (r : JobRunner R)
      → (j ≢ k) ⊎ (owner ≢ t)
      → Holds k t job r
      → Holds k t job (finish j (some owner) o now r)
  unfolding finish owns
  finish-Holds k j t owner o now job r (inl other) h = record {
    shown = ground (arith, h.shown, get_job-write j k o now r, key_eq.beq_iff j k);
    owned = ground (arith, h.owned, worker-write j k o now r, key_eq.beq_iff j k);
  }
  finish-Holds k j t owner o now job r (inr late) h = record {
    shown = ground (arith, h.shown, h.owned, get_job-write j k o now r, key_eq.beq_iff j k);
    owned = ground (arith, h.owned, worker-write j k o now r, key_eq.beq_iff j k);
  }

  start-Holds :
      (k j : Key) (t u : ℕ) (alive : ℕ → Bool) (stale_after now : ℕ) (job : Job R) (r : JobRunner R)
      → j ≢ k
      → Holds k t job r
      → Holds k t job (start alive stale_after now j u r).1
  unfolding start
  start-Holds k j t u alive stale_after now job r other h = record {
    shown =
        ground (arith, h.shown, get_job-register j k alive stale_after now u r, key_eq.beq_iff j k);
    owned = ground (arith, h.owned, (worker-register j k alive stale_after now u r).1 other);
  }

  step-Holds :
      (k : Key) (t : ℕ) (job : Job R) (r : JobRunner R) (c : Call R)
      → IsOther k t c
      → Holds k t job r
      → Holds k t job (step r c)
  unfolding step
  step-Holds k t job r (starts j u alive s now) other h =
      start-Holds k j t u alive s now job r other h
  step-Holds k t job r (finishes j owner o now) other h =
      finish-Holds k j t owner o now job r other h

  run-Holds :
      (k : Key) (t : ℕ) (job : Job R) (r : JobRunner R) (cs : List (Call R))
      → All (IsOther k t) cs
      → Holds k t job r
      → Holds k t job (run r cs)
  unfolding run
  run-Holds k t job r [] others h = h
  run-Holds k t job r (c ∷ cs) others h =
      run-Holds k t job (step r c) cs others.1 (step-Holds k t job r c others.0 h)

  started-Holds :
      (k : Key) (t : ℕ) (alive : ℕ → Bool) (s now : ℕ) (r : JobRunner R)
      → (start alive s now k t r).0 ≡ true
      → Holds k t (fresh_job alive s now) (start alive s now k t r).1
  unfolding start
  started-Holds k t alive s now r e = record {
    shown = ground (arith, get_job-register k k alive s now t r, key_eq.beq_iff k k);
    owned = ground (arith, (worker-register k k alive s now t r).0 refl);
  }

  -- A job that a worker was started for shows as running, and stays that worker's, through any calls
  -- on other jobs and any late finishes of other workers of the same job; and then, while that worker
  -- lives and the job is younger than the threshold, a further start of the job starts nothing and
  -- changes nothing.
  start_once :
      (k : Key) (t u : ℕ) (alive alive' : ℕ → Bool) (s now later : ℕ) (r : JobRunner R)
      (cs : List (Call R))
      → (start alive s now k t r).0 ≡ true
      → All (IsOther k t) cs
      → alive' t ≡ true
      → later - now < s
      → let q = run (start alive s now k t r).1 cs in
        (get_job k q ≡ some (fresh_job alive s now)) × (start alive' s later k u q ≡ (false, q))
  unfolding start is_blocked is_stale dead fresh_job
  start_once k t u alive alive' s now later r cs e others lives young =
      let held =
        run-Holds k t (fresh_job alive s now) (start alive s now k t r).1 cs others
          (started-Holds k t alive s now r e) in
      (held.shown, ground (arith, held.shown, held.owned))

  -- The finish of the worker that was started last is the one that counts: after it the job shows the
  -- status and the result of its outcome, the start's time and the finish's, and it has no worker.
  owner_finishes :
      (k : Key) (t : ℕ) (alive : ℕ → Bool) (s now later : ℕ) (o : Outcome R) (r : JobRunner R)
      (cs : List (Call R))
      → (start alive s now k t r).0 ≡ true
      → All (IsOther k t) cs
      → let q = finish k (some t) o later (run (start alive s now k t r).1 cs) in
        (get_job k q
          ≡ some (record {
            status = outcome_status o;
            started_at = now;
            finished_at = some later;
            result = outcome_result o;
            error = outcome_error o;
          }))
        × (worker k q ≡ none)
  unfolding finish owns finished_job fresh_job
  owner_finishes k t alive s now later o r cs e others =
      let q = run (start alive s now k t r).1 cs in
      let held =
        run-Holds k t (fresh_job alive s now) (start alive s now k t r).1 cs others
          (started-Holds k t alive s now r e) in
      (
        ground (arith, held.shown, held.owned, get_job-write k k o later q, key_eq.beq_iff k k),
        ground (arith, held.owned, worker-write k k o later q, key_eq.beq_iff k k),
      )
