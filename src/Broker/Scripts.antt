-- ===== src/Broker/Scripts.antt =====
-- The Lua scripts of internal/broker/redis.go. The server runs each as one indivisible step; an
-- error of a command ends the script, and what was written before it stays.
use mini_sidekiq.Prelude.{ℕ, String, Bool, true, false, Option, none, some, leb, if◌then◌else◌}
use mini_sidekiq.Exec.{Exec, pure, or_raise, bad_script, ◌>>=◌, ◌>>◌}
use mini_sidekiq.Redis.{
  Redis, call_set, call_get, call_lpush, call_rpop, call_lrem_one, call_zadd, call_zrem,
}
use mini_sidekiq.Broker.Keys.{queue_key}
use mini_sidekiq.Broker.Codec.{Codec}

module _ (c : Codec) (r : Redis c.Data) where
  open c use {Data, queue_of}
  open r use {Db}

  -- rpopZaddScript: KEYS are `from` and `to`, ARGV[1] is `score`.
  unfoldable pub rpop_zadd : String → String → ℕ → Exec Db (Option String)
  rpop_zadd from to score = do
    popped ← call_rpop r from
    elim popped [ none ↦ pure none | some id ↦ call_zadd r to score id >> pure (some id) ]

  -- setBranchLpushZaddScript; the script does not read ARGV[4].
  unfoldable pub set_branch_lpush_zadd :
      String → String → String → Data → ℕ → ℕ → String → Exec Db (Unit {0})
  set_branch_lpush_zadd job_key queue_key scheduled_key new_data process_at now id = do
    call_set r job_key new_data
    if leb process_at now
        then call_lpush r queue_key id
        else call_zadd r scheduled_key process_at id

  -- retryDeadJobScript: whether the job was in the dead-letter list.
  unfoldable pub retry_dead : String → String → String → String → Data → Exec Db Bool
  retry_dead dead_key job_key queue_key id new_data = do
    removed ← call_lrem_one r dead_key id
    elim removed [
      | false ↦ pure false
      | true ↦ call_set r job_key new_data >> (call_lpush r queue_key id >> pure true)
    ]

  -- setZaddZremScript
  unfoldable pub set_zadd_zrem : String → String → String → Data → ℕ → String → Exec Db (Unit {0})
  set_zadd_zrem job_key retry_key active_key new_data process_at id = do
    call_set r job_key new_data
    call_zadd r retry_key process_at id
    call_zrem r active_key id
    pure tt

  -- setLpushZremScript
  unfoldable pub set_lpush_zrem : String → String → String → Data → String → Exec Db (Unit {0})
  set_lpush_zrem job_key dead_key active_key new_data id = do
    call_set r job_key new_data
    call_lpush r dead_key id
    call_zrem r active_key id
    pure tt

  -- promoteJobScript: whether the job was moved.
  unfoldable pub promote_job : String → String → String → Exec Db Bool
  promote_job source_key job_key id = do
    removed ← call_zrem r source_key id
    elim removed [
      | false ↦ pure false
      | true ↦ (do
        found ← call_get r job_key
        elim found [
          | none ↦ pure false
          | some found_data ↦ (do
            queue ← or_raise (queue_of found_data) bad_script
            call_lpush r (queue_key queue) id
            pure true)
        ])
    ]
