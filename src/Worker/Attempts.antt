-- ===== src/Worker/Attempts.antt =====
-- How often the worker pool runs a job that always fails.
use mini_sidekiq.Prelude.{ℕ, zero, suc, String, ◌≡◌, List, [], ◌∷◌, Option, none, some}
use mini_sidekiq.Exec.{ok}
use mini_sidekiq.Job.{Job}
use mini_sidekiq.Broker.Interface.{Broker}
use mini_sidekiq.Worker.Middleware.{Context, Handler, Process, chain}
use mini_sidekiq.Worker.Pool.{Pool, get, run_handler, process}

-- A broker that never fails and keeps a record of the calls, the latest first.
pub data Call : Type 0 where
  acknowledged requeued buried : Job → Call

abbrev pub ledger : Broker
ledger = record {
  State = List Call;
  enqueue = λ now job s. (ok tt, s);
  dequeue = λ now queues s. (ok none, s);
  acknowledge = λ job s. (ok tt, acknowledged job ∷ s);
  requeue = λ now job delay s. (ok tt, requeued job ∷ s);
  move_to_dead_letter = λ job s. (ok tt, buried job ∷ s);
  promote_due_jobs = λ now queues s. (ok (0, none), s);
}

-- The job that the last call requeued.
abbrev pub to_rerun : List Call → Option Job
to_rerun (requeued job ∷ s) = some job
to_rerun _ = none

abbrev pub requeues : List Call → ℕ
requeues [] = 0
requeues (requeued job ∷ s) = suc (requeues s)
requeues (_ ∷ s) = requeues s

abbrev pub burials : List Call → ℕ
burials [] = 0
burials (buried job ∷ s) = suc (burials s)
burials (_ ∷ s) = burials s

module _ {Env : Type 0} (quoted : String → String) (pool : Pool Env) (ctx : Context)
    (draw : ℕ) where
  -- A worker runs the job, and again each time it has been requeued, `n` times at most.
  abbrev pub replay : ℕ → Job → Process Env → List Call → Process Env × List Call
  replay zero job p s = (p, s)
  replay (suc n) job p s =
      let (p', s') = process ledger quoted pool draw ctx job p s in
      elim (to_rerun s') [ none ↦ (p', s') | some again ↦ replay n again p' s' ]

  after_run : ℕ → Process Env × List Call → Process Env × List Call
  after_run n (p, s) = elim (to_rerun s) [ none ↦ (p, s) | some again ↦ replay n again p s ]

  -- The pool's handler of the type returns an error or panics, and leaves the job alone.
  abbrev pub AlwaysFails : String → Type 0
  AlwaysFails job_type =
      (h : Handler Env) × (get job_type pool.registry ≡ some h)
      × ((job : Job) (p : Process Env)
          → (e : String) × (q : Process Env) × (run_handler ctx (chain h pool.middleware) job p
              ≡ (some e, job, q)))
