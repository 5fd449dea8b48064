-- ===== src/Commands.antt =====
-- cmd/server, cmd/enqueue and cmd/dashboard: what the programs do with their flags and configuration.
pub mod Copying
use mini_sidekiq.Prelude.{
  ℕ, zero, suc, ◌+◌, ◌*◌, ◌/◌, ◌%◌, ◌^◌, String, ◌<>◌, List, [], ◌∷◌, Option, none, some, ◌⊎◌, inl,
  inr, ℤ, pos, negsuc, Bool, true, false, if◌then◌else◌, ltb, get_elem?,
}
use mini_sidekiq.Exec.{Error, ok, err}
use mini_sidekiq.Job.{Job}
use mini_sidekiq.Broker.Interface.{Broker}
use mini_sidekiq.Worker.Middleware.{Handler, returned, sending_email, failing_on_purpose, write_log}
use mini_sidekiq.Client.{
  EnqueueOptions, Inputs, ServerConfig, Server, new_server, server_register, enqueue,
}
use mini_sidekiq.Config.Settings.{Config, Viper, Os}
use mini_sidekiq.Config.{load}

abbrev or_empty : Option String → String
or_empty none = ""
or_empty (some s) = s

-- `%d` of a number that is not negative.
abbrev digit : ℕ → String
digit n = or_empty (get_elem? ("0" ∷ "1" ∷ "2" ∷ "3" ∷ "4" ∷ "5" ∷ "6" ∷ "7" ∷ "8" ∷ "9" ∷ []) n)

abbrev digits : ℕ → ℕ → String
digits zero n = ""
digits (suc fuel) n =
    let higher = digits fuel (n / 10) in if ltb n 10 then digit n else higher <> digit (n % 10)

-- A number has fewer digits than it counts, or one.
unfoldable pub decimal : ℕ → String
decimal n = digits (suc n) n

module _ {Env : Type 0} where
  -- The handler sleeps for 200 ms.
  unfoldable pub send_email_handler : Handler Env
  send_email_handler ctx job p =
      let q = write_log (sending_email job.id job.payload) p in
      (returned none, job, record q { clock = q.clock + 200 * 10 ^ 6 })

  unfoldable pub failing_job_handler : Handler Env
  failing_job_handler ctx job p =
      let attempt = job.attempts + 1 in
      (
        returned (some ("simulated failure (attempt " <> decimal attempt <> ")")),
        job,
        write_log (failing_on_purpose job.id attempt) p,
      )

-- The copy of the map of queues has the same entries. BufferSize is left at 0.
abbrev pub server_config : Config → ServerConfig
server_config cfg = record {
  concurrency = cfg.concurrency;
  queues = cfg.queues;
  buffer_size = 0;
  poll_interval = cfg.poll_interval;
  scheduler_interval = cfg.scheduler_interval;
}

unfoldable pub build_server : {Env : Type 0} → Config → Server Env
build_server cfg =
    server_register "FailingJob" failing_job_handler
      (server_register "SendEmail" send_email_handler (new_server (server_config cfg)))

-- A command that cannot read its configuration exits with 1.
pub data Launch (A : Type 0) : Type 0 where
  exits : ℕ → Launch A
  runs : A → Launch A

module _ (v : Viper) (os : Os) (path : String) where
  -- cmd/server up to the call of Run.
  unfoldable pub server_main : {Env : Type 0} → Launch (Server Env)
  server_main = elim (load v os path) [ inl e ↦ exits 1 | inr cfg ↦ runs (build_server cfg) ]

  -- cmd/dashboard: the addresses of Redis and of the HTTP server.
  unfoldable pub dashboard_main : Launch (String × String)
  dashboard_main = elim (load v os path) [
    | inl e ↦ exits 1
    | inr cfg ↦ runs (cfg.redis_addr, cfg.dashboard_addr)
  ]

-- cmd/enqueue. The field `delay` is the flag -in.
pub record Flags : Type 0 where
  pub queue : String
  pub job_type : String
  pub payload : String
  pub delay : ℤ
  pub max_attempts : ℤ
  pub count : ℤ

abbrev pub options : Flags → EnqueueOptions
options f = record { queue = f.queue; delay = f.delay; max_attempts = f.max_attempts }

-- What is printed: the job, and whether the time follows at which it runs.
pub data Line : Type 0 where
  invalid_payload : Line
  enqueue_failed : Error → Line
  enqueued : (id queue job_type : String) (delayed : Bool) → Line

abbrev pub is_delayed : ℤ → Bool
is_delayed (pos zero) = false
is_delayed (pos (suc n)) = true
is_delayed (negsuc n) = false

abbrev pub line_of : Flags → Job → Line
line_of f job = enqueued job.id job.queue job.type (is_delayed f.delay)

-- How often the loop runs.
abbrev pub rounds : ℤ → ℕ
rounds (pos n) = n
rounds (negsuc n) = 0

module _ (b : Broker) (f : Flags) (inputs : ℕ → Inputs) where
  -- The loop, with `n` rounds to go: the lines printed and the exit code. `inputs` is what each round
  -- reads from outside.
  unfoldable pub enqueue_copies : ℕ → ℕ → b.State → (List Line × ℕ) × b.State
  enqueue_copies i zero s = (([], 0), s)
  enqueue_copies i (suc n) s =
      let (result, s') = enqueue b (inputs i) f.job_type (options f ∷ []) s in
      elim result [
        | err e ↦ ((enqueue_failed e ∷ [], 1), s')
        | ok job ↦
            let ((lines, code), s'') = enqueue_copies (suc i) n s' in
            ((line_of f job ∷ lines, code), s'')
      ]

  -- `is_json` says whether json.Unmarshal reads a payload.
  unfoldable pub enqueue_main : (String → Bool) → b.State → (List Line × ℕ) × b.State
  enqueue_main is_json s =
      if is_json f.payload
      then enqueue_copies 0 (rounds f.count) s
      else ((invalid_payload ∷ [], 1), s)
