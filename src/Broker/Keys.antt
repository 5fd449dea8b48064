-- ===== src/Broker/Keys.antt =====
-- The Redis keys that internal/broker/redis.go builds, and that no two of them collide.
use Prim.Native.Char.{code}
use Prim.Native.String.{◌++◌}
use text.Mathlib.TextLemmas.{append_cancel_left, cons-append}
use mini_sidekiq.Prelude.{
  ℕ, zero, suc, String, ◌≡◌, ◌≢◌, refl, ap, Option, none, some, ◌==◌, eq_iff, arith,
}

unfoldable pub job_key : String → String
job_key id = "sidekiq:job:" ++ id

unfoldable pub queue_key : String → String
queue_key q = "sidekiq:queue:" ++ q

unfoldable pub retry_key : String → String
retry_key q = "sidekiq:retry:" ++ q

unfoldable pub dead_key : String → String
dead_key q = "sidekiq:dead:" ++ q

unfoldable pub active_key : String
active_key = "sidekiq:active"

unfoldable pub scheduled_key : String
scheduled_key = "sidekiq:scheduled"

code_at : ℕ → String → Option ℕ
code_at i String.[] = none
code_at zero (String.◌∷◌ c s) = some (code c)
code_at (suc i) (String.◌∷◌ c s) = code_at i s

code_at-append : (p s : String) (i : ℕ) {c : ℕ} → code_at i p ≡ some c → code_at i (p ++ s) ≡ some c
unfolding code_at
code_at-append String.[] s i h = cc
code_at-append (String.◌∷◌ d p) s zero h = rw cons-append h
code_at-append (String.◌∷◌ d p) s (suc i) h = rw cons-append (code_at-append p s i h)

-- The first character after "sidekiq:" tells the kinds of keys apart.
ne_of_code_at :
    (s t : String) (c d : ℕ) → code_at 8 s ≡ some c → code_at 8 t ≡ some d → c ≢ d → s ≢ t
ne_of_code_at s t c d p q h e = h (ground (arith, ap (code_at 8) e))

abbrev OfKind : ℕ → String → Type 0
OfKind c k = code_at 8 k ≡ some c

module _ (x : String) where
  job_kind : OfKind b'j' (job_key x)
  unfolding code_at job_key
  job_kind = code_at-append "sidekiq:job:" x 8 refl

  queue_kind : OfKind b'q' (queue_key x)
  unfolding code_at queue_key
  queue_kind = code_at-append "sidekiq:queue:" x 8 refl

  retry_kind : OfKind b'r' (retry_key x)
  unfolding code_at retry_key
  retry_kind = code_at-append "sidekiq:retry:" x 8 refl

  dead_kind : OfKind b'd' (dead_key x)
  unfolding code_at dead_key
  dead_kind = code_at-append "sidekiq:dead:" x 8 refl

active_kind : OfKind b'a' active_key
unfolding code_at active_key
active_kind = refl

scheduled_kind : OfKind b's' scheduled_key
unfolding code_at scheduled_key
scheduled_kind = refl

-- Where a job id can stand.
pub data Place : Type 0 where
  in_queue in_retry in_dead : String → Place
  in_active in_scheduled : Place

abbrev pub place_key : Place → String
place_key (in_queue q) = queue_key q
place_key (in_retry q) = retry_key q
place_key (in_dead q) = dead_key q
place_key in_active = active_key
place_key in_scheduled = scheduled_key

abbrev pub place_code : Place → ℕ
place_code (in_queue q) = b'q'
place_code (in_retry q) = b'r'
place_code (in_dead q) = b'd'
place_code in_active = b'a'
place_code in_scheduled = b's'

place_kind : (p : Place) → OfKind (place_code p) (place_key p)
place_kind (in_queue q) = queue_kind q
place_kind (in_retry q) = retry_kind q
place_kind (in_dead q) = dead_kind q
place_kind in_active = active_kind
place_kind in_scheduled = scheduled_kind

-- Two places never share a key.
pub place_key-injective : (p q : Place) → place_key p ≡ place_key q → p ≡ q
unfolding queue_key retry_key dead_key
place_key-injective (in_queue a) (in_queue b) e = ap in_queue (append_cancel_left _ a b e)
place_key-injective (in_retry a) (in_retry b) e = ap in_retry (append_cancel_left _ a b e)
place_key-injective (in_dead a) (in_dead b) e = ap in_dead (append_cancel_left _ a b e)
place_key-injective in_active in_active e = refl
place_key-injective in_scheduled in_scheduled e = refl
place_key-injective p q e = absurd (
    ne_of_code_at _ _ (place_code p) (place_code q) (place_kind p) (place_kind q) (λ h. omega arith)
      e)

pub job_key-injective : (i j : String) → job_key i ≡ job_key j → i ≡ j
unfolding job_key
job_key-injective i j e = append_cancel_left _ i j e

-- The record of a job has a key of its own.
pub job_key-ne-place_key : (i : String) (p : Place) → job_key i ≢ place_key p
job_key-ne-place_key i p =
    ne_of_code_at _ _ b'j' (place_code p) (job_kind i) (place_kind p) (place_code-ne p)
  where
    place_code-ne : (p : Place) → ◌≢◌ {A = ℕ} b'j' (place_code p)
    place_code-ne (in_queue q) = omega arith
    place_code-ne _ = omega arith

pub place_key-ne : (p q : Place) → place_code p ≢ place_code q → place_key p ≢ place_key q
place_key-ne p q = ne_of_code_at _ _ (place_code p) (place_code q) (place_kind p) (place_kind q)

pub job_key-eq : (i j : String) → (job_key i == job_key j) ≡ (i == j)
job_key-eq i j = ground (
  arith,
  eq_iff (job_key i) (job_key j),
  eq_iff i j,
  job_key-injective i j,
  ap job_key {x = i} {y = j},
)
