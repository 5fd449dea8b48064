-- ===== src/Job.antt =====
-- job.go: the job record and its constructor.
use mini_sidekiq.Prelude.{ℕ, String, Option, none, some}

-- `JobStatus` is a string type: the five constants, and any other text.
pub data JobStatus : Type 0 where
  pending active retry dead completed : JobStatus
  other : String → JobStatus

-- Times are nanoseconds since 1970. The integer fields are never negative in the program.
pub record Job : Type 0 where
  pub id : String
  pub queue : String
  pub type : String
  pub payload : String
  pub priority : ℕ
  pub created_at : ℕ
  pub enqueued_at : ℕ
  pub process_at : ℕ
  pub attempts : ℕ
  pub max_attempts : ℕ
  pub last_error : String
  pub unique_key : String
  pub status : JobStatus

-- `NewJob`: `payload` is the result of `json.Marshal`, `uuid` that of `uuid.New`. The two calls of
-- `time.Now` may read different times.
unfoldable pub new_job : Option String → String → ℕ → ℕ → String → String → Option Job
new_job none uuid created process queue job_type = none
new_job (some payload) uuid created process queue job_type = some (record {
  id = uuid;
  queue = queue;
  type = job_type;
  payload = payload;
  priority = 0;
  created_at = created;
  enqueued_at = 0;
  process_at = process;
  attempts = 0;
  max_attempts = 3;
  last_error = "";
  unique_key = "";
  status = pending;
})
