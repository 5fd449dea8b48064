-- ===== src/Commands/Copying.antt =====
-- cmd/enqueue over the Redis broker.
use mini_sidekiq.Prelude.{
  ℕ, zero, suc, ◌≤◌, ◌<◌, String, ◌≡◌, ◌≢◌, refl, ◌⊎◌, inl, inr, List, [], ◌∷◌, none, some, ℤ, pos,
  negsuc, ==-false_of_ne, Bool, true, false, arith,
}
use mini_sidekiq.Exec.{network}
use mini_sidekiq.Job.{Job}
use mini_sidekiq.Redis.{Redis}
use mini_sidekiq.Broker.Codec.{Codec}
use mini_sidekiq.Broker.Network.{World}
use mini_sidekiq.Broker.Tracking.{Placement, Tracks, put}
use mini_sidekiq.Broker.Tracking.Deliver.{entry}
use mini_sidekiq.Broker.RedisBroker.{unix}
use mini_sidekiq.Broker.Interface.{redis_broker}
use mini_sidekiq.Client.{Inputs}
use mini_sidekiq.Client.Enqueuing.{
  intended, IsWanted, IsNotPositive, intended-IsWanted, enqueue_intended,
}
use mini_sidekiq.Commands.{
  Flags, Line, enqueued, enqueue_failed, options, is_delayed, rounds, enqueue_copies, enqueue_main,
}

-- Whether a printed line has the time of the job: if its delay is positive.
abbrev pub Tells : ℤ → Bool → Type 0
Tells delay told =
    (IsNotPositive delay × (told ≡ false)) ⊎ ((d : ℕ) × (0 < d) × (delay ≡ pos d) × (told ≡ true))

is_delayed-Tells : (delay : ℤ) → Tells delay (is_delayed delay)
is_delayed-Tells (pos zero) = inl ((λ n h. cc), refl)
is_delayed-Tells (pos (suc n)) = inr (suc n, omega arith, refl, refl)
is_delayed-Tells (negsuc n) = inl ((λ n h. cc), refl)

-- How many jobs -count asks for.
abbrev pub AsksRounds : ℤ → ℕ → Type 0
AsksRounds count n = (count ≡ pos n) ⊎ (IsNotPositive count × (n ≡ 0))

rounds_lem : (count : ℤ) (n : ℕ) → AsksRounds count n → rounds count ≡ n
rounds_lem (pos m) n (inl e) = cc
rounds_lem (negsuc m) n (inl e) = cc
rounds_lem (pos zero) n (inr (low, e)) = omega (arith, e)
rounds_lem (pos (suc m)) n (inr (low, e)) = absurd (low m refl)
rounds_lem (negsuc m) n (inr (low, e)) = omega (arith, e)

module _ (c : Codec) (r : Redis c.Data) (f : Flags) (inputs : ℕ → Inputs) (payload : String) where
  open r use {Db}

  -- The job that a round is to enqueue, by the flags, and the placement with it.
  abbrev pub IsCopy : ℕ → Job → Type 0
  IsCopy i =
      IsWanted (inputs i) payload f.job_type
        (record { queue = f.queue; delay = f.delay; max_attempts = f.max_attempts } ∷ [])

  abbrev pub with_job : ℕ → Job → Placement → Placement
  with_job i job w = put job.id (entry (unix job.process_at) (unix (inputs i).sent) job) w

  -- How the rounds from `i` on may end, with `n` of them to go: the job of each stands at its place
  -- and its line is printed, up to a round that fails, whose job stands at its place or nowhere.
  pub data Copies : Placement → ℕ → ℕ → (List Line × ℕ) × World Db → Type 0 where
    no_more :
        {w : Placement} {i : ℕ} {world : World Db}
        → Tracks c r world.db w
        → Copies w i 0 (([], 0), world)
    one_more :
        {w : Placement} {i n : ℕ} {lines : List Line} {code : ℕ} {world : World Db}
        → (job : Job) (told : Bool) → IsCopy i job
        → Tells f.delay told
        → Copies (with_job i job w) (suc i) n ((lines, code), world)
        → Copies w i (suc n) ((enqueued job.id job.queue job.type told ∷ lines, code), world)
    fails :
        {w : Placement} {i n : ℕ} {world : World Db}
        → (job : Job) → IsCopy i job
        → Tracks c r world.db w ⊎ Tracks c r world.db (with_job i job w)
        → Copies w i (suc n) ((enqueue_failed network ∷ [], 1), world)

  copy : ℕ → Job
  copy i = intended (inputs i) payload f.job_type (options f ∷ [])

  copy-IsCopy : (i : ℕ) → IsCopy i (copy i)
  unfolding copy
  copy-IsCopy i = intended-IsWanted (inputs i) payload f.job_type (options f ∷ [])

  -- What the rounds read: a payload that can be encoded, and no id twice; and every job can be
  -- encoded.
  pub record Suits : Type 0 where
    pub encodes : (i : ℕ) → (inputs i).payload ≡ some payload
    pub distinct : (i j : ℕ) → i < j → (inputs i).uuid ≢ (inputs j).uuid
    pub marshals : (i : ℕ) (job : Job) → IsCopy i job → (d : c.Data) × (c.marshal job ≡ some d)

  module _ (suits : Suits) where
    enqueue_copies-Copies :
        (i n : ℕ) (w : Placement) (world : World Db)
        → Tracks c r world.db w
        → ((k : ℕ) → i ≤ k → w (inputs k).uuid ≡ none)
        → Copies w i n (enqueue_copies (redis_broker c r) f inputs i n world)
    unfolding enqueue_copies copy
    enqueue_copies-Copies i zero w world t new = no_more t
    enqueue_copies-Copies i (suc n) w world t new =
        let wanted = copy-IsCopy i in
        let (d, m) = suits.marshals i (copy i) wanted in
        let still_new : (k : ℕ) → suc i ≤ k → with_job i (copy i) w (inputs k).uuid ≡ none = λ k h.
          rw (wanted.id, ==-false_of_ne _ _ (suits.distinct i k (omega (arith, h))))
            (new k (omega (arith, h))) in
        elim (enqueue_intended c r world w (inputs i) payload f.job_type (options f ∷ []) d t
          (suits.encodes i) (rw wanted.id (new i (omega arith))) m) [
            | inl (e, t') ↦
                rw (enqueue_copies, e)
                  (one_more (copy i) _ wanted (is_delayed-Tells f.delay)
                    (enqueue_copies-Copies (suc i) n _ _ t' still_new))
            | inr (e, t') ↦ rw (enqueue_copies, e) (fails (copy i) wanted t')
          ]

    -- cmd/enqueue with a payload that is JSON, over Redis and whatever the network does: each
    -- round enqueues a job as the flags ask for it, under an id of its own, and prints its id,
    -- queue and type and whether it is delayed. There are as many rounds as -count says, and none
    -- if it is not positive; but it stops at the first error with code 1, and the job of that
    -- round stands at its place or nowhere. All ids are new, no id comes twice, and all payloads
    -- and jobs can be encoded.
    pub enqueue_main-Copies :
        (is_json : String → Bool) (n : ℕ) (w : Placement) (world : World Db)
        → Tracks c r world.db w
        → ((k : ℕ) → w (inputs k).uuid ≡ none)
        → is_json f.payload ≡ true
        → AsksRounds f.count n
        → Copies w 0 n (enqueue_main (redis_broker c r) f inputs is_json world)
    unfolding enqueue_main
    enqueue_main-Copies is_json n w world t new valid asked =
        rw (valid, rounds_lem f.count n asked) (enqueue_copies-Copies 0 n w world t (λ k h. new k))
