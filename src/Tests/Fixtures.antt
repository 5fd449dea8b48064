-- ===== src/Tests/Fixtures.antt =====
-- A codec that stores jobs as they are, a small store, and jobs.
use mini_sidekiq.Prelude.{◌≡◌, refl, sym, [], some, none, arith, ◌==◌, if◌then◌else◌}
use mini_sidekiq.Job.{Job, pending}
use mini_sidekiq.Redis.{Redis}
use mini_sidekiq.Redis.Memory.{memory}
use mini_sidekiq.Broker.Codec.{Codec}
use mini_sidekiq.Broker.Network.{World}
use mini_sidekiq.Exec.{ok}
use mini_sidekiq.Broker.Scripts.{set_lpush_zrem}
use mini_sidekiq.Broker.Tracking.Settle.{dead_letter_script}
use mini_sidekiq.Broker.Keys.{in_dead, dead_key, in_active, job_key, active_key}
use mini_sidekiq.Broker.Tracking.{Placement, Tracks, put}
use mini_sidekiq.Broker.Commands.{Effect, zadd-Effect}
use mini_sidekiq.Broker.Tracking.Moves.{give-Places}
use mini_sidekiq.Broker.Tracking.Records.{
  blank-Tracks, IsWritten, score-Gives, set-IsShaped, set-Places, Recorded-put,
}

pub comes_back : (j d : Job) → some j ≡ some d → some d ≡ some j
comes_back j d h = sym h

pub keeps_queue : (j d : Job) → some j ≡ some d → some d.queue ≡ some j.queue
keeps_queue j d h = ground arith

abbrev pub plain : Codec
plain = record {
  Data = Job;
  marshal = λ j. some j;
  unmarshal = λ d. some d;
  queue_of = λ d. some d.queue;
  unmarshal-marshal = comes_back;
  queue_of-marshal = keeps_queue;
}

abbrev pub server : Redis plain.Data
server = memory Job

abbrev pub nowhere : Placement
nowhere a = none

pub empty-Tracks : Tracks plain server [] nowhere
empty-Tracks = blank-Tracks plain server [] (λ k. refl)

abbrev pub idle : World server.Db
idle = record { db = []; faults = [] }

abbrev pub mail : Job
mail = record {
  id = "a1";
  queue = "critical";
  type = "SendEmail";
  payload = "{}";
  priority = 0;
  created_at = 1000;
  enqueued_at = 0;
  process_at = 2000;
  attempts = 0;
  max_attempts = 3;
  last_error = "";
  unique_key = "";
  status = pending;
}

-- A store in which the job is running.
abbrev pub recorded_db : server.Db
recorded_db = server.set (job_key "a1") mail []

abbrev pub running_db : server.Db
running_db = server.zadd active_key 30 "a1" recorded_db

abbrev pub running : Placement
running = put "a1" in_active nowhere

mail-IsWritten : IsWritten plain server mail mail in_active
mail-IsWritten = record { written = refl; home = tt }

abbrev mail_runs :
    Effect server in_active (λ a m. if "a1" == a then 1 else m) recorded_db running_db
mail_runs =
    zadd-Effect server in_active "a1" recorded_db
      (set-IsShaped plain server [] nowhere empty-Tracks mail mail) tt 30

pub running-Tracks : Tracks plain server running_db running
running-Tracks = record {
  shaped = mail_runs.shaped;
  placed =
      give-Places server nowhere "a1" in_active recorded_db running_db
        (set-Places plain server [] nowhere empty-Tracks mail mail) _ (score-Gives "a1") refl
        mail_runs.placed;
  recorded =
      Recorded-put plain server nowhere mail mail in_active [] running_db mail-IsWritten
        mail_runs.records empty-Tracks.recorded;
}

abbrev pub world_of : server.Db → World server.Db
world_of db = record { db = db; faults = [] }

-- A store in which the job is in the dead-letter list.
abbrev pub buried :
    (db' : server.Db) × (set_lpush_zrem plain server
        (job_key "a1")
        (dead_key "critical")
        active_key
        mail
        "a1"
        running_db
      ≡ (ok tt, db'))
    × Tracks plain server db' (put "a1" (in_dead "critical") running)
buried =
    dead_letter_script plain server running_db running running-Tracks mail mail refl
      (record { written = refl; home = refl })
