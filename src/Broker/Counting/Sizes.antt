-- ===== src/Broker/Counting/Sizes.antt =====
-- The numbers that GetQueueStats notes, and the lengths that it reads.
use mini_sidekiq.Prelude.{
  ℕ, ◌+◌, String, ◌≡◌, refl, sym, ap, ◌∙◌, Bool, true, false, length, if◌then◌else◌, arith,
}
use mini_sidekiq.Exec.{ok}
use mini_sidekiq.Redis.{reply}
use mini_sidekiq.Redis.Values.{Value, missing, text, list, zset, read_list, read_zset}
use mini_sidekiq.Redis.Occurrences.{IsListLike, IsZsetLike}
use mini_sidekiq.Broker.Stats.{QueueStats, for_queue}
use mini_sidekiq.Broker.Counting.{note_enqueued, note_retry, note_dead, more_scheduled, more_active}
use mini_sidekiq.Broker.Counting.Phases.{IsNote}

-- A change that only sets or adds up numbers.
pub enqueued-IsNote : IsNote note_enqueued
unfolding for_queue
enqueued-IsNote = record { keeps_queue = λ n s. refl; apart = λ n q s. refl }

pub retry-IsNote : IsNote note_retry
unfolding for_queue
retry-IsNote = record { keeps_queue = λ n s. refl; apart = λ n q s. refl }

pub dead-IsNote : IsNote note_dead
unfolding for_queue
dead-IsNote = record { keeps_queue = λ n s. refl; apart = λ n q s. refl }

pub scheduled-IsNote : IsNote more_scheduled
unfolding for_queue
scheduled-IsNote = record { keeps_queue = λ n s. refl; apart = λ n q s. refl }

pub active-IsNote : IsNote more_active
unfolding for_queue
active-IsNote = record { keeps_queue = λ n s. refl; apart = λ n q s. refl }

pub plus_assoc : (l m n : ℕ) → l + m + n ≡ l + (m + n)
plus_assoc l m n = omega arith

pub zero_plus : (n : ℕ) → 0 + n ≡ n
zero_plus n = omega arith

-- Nothing is noted for a queue without a key, and nothing is there to note.
pub noted_or_zero :
    (b : Bool) (note : ℕ → QueueStats → QueueStats) (n : ℕ) (s : QueueStats)
    → (b ≡ false → n ≡ 0)
    → note 0 s ≡ s
    → (if b then note n s else s) ≡ note n s
noted_or_zero true note n s z e = refl
noted_or_zero false note n s z e = sym e ∙ ap (λ i. note i s) (sym (z refl))

-- How many entries a list or a sorted set has.
abbrev pub depth : {D : Type 0} → Value D → ℕ
depth (list l) = length l
depth (zset l) = length l
depth _ = 0

pub list_size :
    {D : Type 0} (v : Value D)
    → IsListLike v
    → reply (length {A = String}) (read_list v) ≡ ok (depth v)
list_size missing z = refl
list_size (list l) z = refl
list_size (text d) z = absurd z
list_size (zset l) z = absurd z

pub zset_size :
    {D : Type 0} (v : Value D)
    → IsZsetLike v
    → reply (length {A = String × ℕ}) (read_zset v) ≡ ok (depth v)
zset_size missing z = refl
zset_size (zset l) z = refl
zset_size (text d) z = absurd z
zset_size (list l) z = absurd z
