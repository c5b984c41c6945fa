-- ===== src/ControlPlane/Jobs/Ownership/Examples.antt =====
-- Concrete inputs for the theorems of Ownership.
use cobol_java_migrator_v.ControlPlane.Jobs.{
  Key, JobRunner, Outcome, returned, dead, get_job, worker, outcome_status, outcome_result,
  outcome_error, finish, is_stale, is_blocked, fresh_job, released, register, start,
}
use cobol_java_migrator_v.ControlPlane.Jobs.Ownership.{
  Call, starts, run, start_once, owner_finishes,
}
use cobol_java_migrator_v.Prelude.{
  ℕ, ◌≡◌, refl, ap, ◌≢◌, Bool, true, false, none, some, List, [], ◌∷◌, arith, string_eq,
}
use cobol_java_migrator_v.Prelude.Dict.{get}

abbrev idle : JobRunner ℕ
idle = record { jobs = []; threads = [] }

abbrev alive_all : ℕ → Bool
alive_all t = true

abbrev key : Key
key = ("build", "w")

abbrev parse_key : Key
parse_key = ("parse", "w")

abbrev others : List (Call ℕ)
others = starts parse_key 8 alive_all 1800 5 ∷ []

started : (start alive_all 1800 0 key 7 idle).0 ≡ true
unfolding start is_blocked is_stale dead register released fresh_job get
started = refl

other_job : parse_key ≢ key
other_job e = absurd (ground (arith, string_eq.beq_iff "parse" "build", ap (λ k. k.0) e))

start_once_example :
    let q = run (start alive_all 1800 0 key 7 idle).1 others in
    (get_job key q ≡ some (fresh_job alive_all 1800 0))
    × (start alive_all 1800 100 key 9 q ≡ (false, q))
start_once_example =
    start_once key 7 9 alive_all alive_all 1800 0 100 idle others started (other_job, tt) refl
      (omega arith)

abbrev finished : Outcome ℕ
finished = returned none 3

owner_finishes_example :
    let q = finish key (some 7) finished 50 (run (start alive_all 1800 0 key 7 idle).1 others) in
    (get_job key q
      ≡ some (record {
        status = outcome_status finished;
        started_at = 0;
        finished_at = some 50;
        result = outcome_result finished;
        error = outcome_error finished;
      }))
    × (worker key q ≡ none)
owner_finishes_example =
    owner_finishes key 7 alive_all 1800 0 50 finished idle others started (other_job, tt)
