-- ===== src/Worker/Chain.antt =====
-- What `Chain` composes, and what the middlewares of internal/middleware do to a call.
use mini_sidekiq.Prelude.{
  ◌<>◌, String, none, some, ℕ, zero, suc, ◌≡◌, refl, ap, List, [], ◌∷◌, ◌++◌, length,
}
use mini_sidekiq.Job.{Job}
use mini_sidekiq.Worker.Middleware.{
  Context, Handler, Middleware, Process, returned, panicked, wrap, chain, recovery_middleware,
  metrics_middleware,
}

module _ {Env : Type 0} where
  -- The reference: the first middleware is the outermost.
  abbrev pub nested : Handler Env → List (Middleware Env) → Handler Env
  nested base [] = base
  nested base (m ∷ ms) = m (nested base ms)

  wrap-cons :
      (m : Middleware Env) (ms : List (Middleware Env)) (i : ℕ) (h : Handler Env)
      → wrap (m ∷ ms) (suc i) h ≡ m (wrap ms i h)
  wrap-cons m ms zero h = refl
  wrap-cons m ms (suc i) h = wrap-cons m ms i _

  -- The loop of Chain, which wraps from the last middleware to the first, makes the first one the
  -- outermost and runs the handler innermost.
  pub chain-nested :
      (base : Handler Env) (mws : List (Middleware Env)) → chain base mws ≡ nested base mws
  unfolding chain
  chain-nested base [] = refl
  chain-nested base (m ∷ ms) = rw (wrap-cons m ms (length ms) base) (ap m (chain-nested base ms))

  pub nested-append :
      (base : Handler Env) (outer inner : List (Middleware Env))
      → nested base (outer ++ inner) ≡ nested (nested base inner) outer
  nested-append base [] inner = refl
  nested-append base (m ∷ ms) inner = ap m (nested-append base ms inner)

  -- With the metrics middleware outside the recovery middleware, each call of a handler that
  -- leaves the counter of jobs and the job's type alone adds exactly one count: "success" if the
  -- handler returned no error, and "failure" if it returned one, which is passed on, or panicked,
  -- which becomes an error with the value and the stack.
  pub metrics-counts_once :
      (h : Handler Env) (ctx : Context) (job : Job) (p : Process Env)
      → (h ctx job p).2.jobs_processed ≡ p.jobs_processed
      → (h ctx job p).1.type ≡ job.type
      → let (outcome, j, q) = metrics_middleware (recovery_middleware h) ctx job p in
        ((h ctx job p).0 ≡ returned none
          → (q.jobs_processed ≡ p.jobs_processed ++ ((job.type, "success") ∷ []))
            × (outcome ≡ returned none))
        × ((e : String)
            → (h ctx job p).0 ≡ returned (some e)
            → (q.jobs_processed ≡ p.jobs_processed ++ ((job.type, "failure") ∷ []))
              × (outcome ≡ returned (some e)))
        × ((value stack : String)
            → (h ctx job p).0 ≡ panicked value stack
            → (q.jobs_processed ≡ p.jobs_processed ++ ((job.type, "failure") ∷ []))
              × (outcome ≡ returned (some ("panic: " <> value <> "\n" <> stack))))
  unfolding metrics_middleware recovery_middleware
  metrics-counts_once h ctx job p kept same = (
    λ fine. rw (kept, same, fine) (refl, refl),
    λ e failed. rw (kept, same, failed) (refl, refl),
    λ value stack thrown. rw (kept, same, thrown) (refl, refl),
  )
