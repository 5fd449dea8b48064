-- ===== src/System/Holding.antt =====
-- The jobs that are held, and a placement that has each of them running.
use mini_sidekiq.Prelude.{
  ℕ, ◌+◌, ◌≤◌, String, ◌≡◌, refl, ap, inl, inr, List, [], ◌∷◌, ◌++◌, Option, none, some, ◌==◌,
  if◌then◌else◌, tally, eq_iff, eq_refl, ==-false_of_ne, Bool-cases, arith,
}
use mini_sidekiq.Job.{Job}
use mini_sidekiq.Redis.Values.{Value, missing}
use mini_sidekiq.Broker.Codec.{Codec}
use mini_sidekiq.Broker.Keys.{
  Place, in_queue, in_retry, in_dead, in_scheduled, in_active, place_key, place_key-ne,
}
use mini_sidekiq.Broker.Tracking.{Placement, Recorded, at_place, put}
use mini_sidekiq.Broker.Tracking.Records.{at_place_self, at_place_pos}
use mini_sidekiq.Broker.RedisBroker.Promote.{IsSource}
use mini_sidekiq.Worker.Settling.{after}

-- How many jobs with the id are in the list.
abbrev pub copies : String → List Job → ℕ
copies id [] = 0
copies id (job ∷ jobs) = tally (job.id == id) + copies id jobs

copies-split :
    (id : String) (before after : List Job) (job : Job)
    → copies id (before ++ (job ∷ after)) ≡ tally (job.id == id) + copies id (before ++ after)
copies-split id [] after job = refl
copies-split id (j ∷ before) after job = omega (arith, copies-split id before after job)

-- Each job held is running, once.
abbrev pub Covers : List Job → Placement → Type 0
Covers held w = (id : String) → copies id held ≤ at_place (w id) in_active

pub at_place_le : (o : Option Place) (p : Place) → at_place o p ≤ 1
at_place_le none p = omega arith
at_place_le (some q) p = elim (Bool-cases (place_key q == place_key p)) [
  | inl e ↦ rw e (omega arith)
  | inr e ↦ rw e (omega arith)
]

-- A job that nobody holds may go anywhere.
pub Covers-put :
    (held : List Job) (w : Placement) (id : String) (o : Option Place)
    → copies id held ≡ 0
    → Covers held w
    → Covers held (λ a. if id == a then o else w a)
Covers-put held w id o free h a = elim (Bool-cases (id == a)) [
  | inl e ↦ rw e (rw (← (eq_iff id a).0 e, free) (omega arith))
  | inr e ↦ rw e (h a)
]

-- Nobody holds a job that stands elsewhere.
pub not_held :
    (held : List Job) (w : Placement) (id : String) (o : Option Place)
    → w id ≡ o
    → at_place o in_active ≡ 0
    → Covers held w
    → copies id held ≡ 0
not_held held w id o e z h = omega (arith, ap (λ x. at_place x in_active) e, z, h id)

-- A place that is not the running set.
abbrev IsElsewhere : Place → Type 0
IsElsewhere in_active = ⊥
IsElsewhere _ = Unit

pub elsewhere : (p : Place) → IsElsewhere p → at_place (some p) in_active ≡ 0
elsewhere (in_queue q) h =
    rw (==-false_of_ne _ _ (place_key-ne (in_queue q) in_active (λ e. omega arith)))
elsewhere (in_retry q) h =
    rw (==-false_of_ne _ _ (place_key-ne (in_retry q) in_active (λ e. omega arith)))
elsewhere (in_dead q) h =
    rw (==-false_of_ne _ _ (place_key-ne (in_dead q) in_active (λ e. omega arith)))
elsewhere in_scheduled h =
    rw (==-false_of_ne _ _ (place_key-ne in_scheduled in_active (λ e. omega arith)))
elsewhere in_active h = absurd h

pub source-IsElsewhere : (queues : List String) (p : Place) → IsSource queues p → IsElsewhere p
source-IsElsewhere queues in_scheduled h = tt
source-IsElsewhere queues (in_retry q) h = tt
source-IsElsewhere queues _ h = absurd h

-- The job that is handed over is held, and running.
pub Covers-take :
    (held : List Job) (w : Placement) (job : Job)
    → copies job.id held ≡ 0
    → Covers held w
    → Covers (job ∷ held) (put job.id in_active w)
Covers-take held w job free h a = elim (Bool-cases (job.id == a)) [
  | inl e ↦
      rw (e, at_place_self in_active)
        (omega (arith, ap (λ x. copies x held) ((eq_iff job.id a).0 e), free))
  | inr e ↦ rw e (omega (arith, h a))
]

pub Covers-fewer :
    (before after : List Job) (job : Job) (w : Placement)
    → Covers (before ++ (job ∷ after)) w
    → Covers (before ++ after) w
Covers-fewer before after job w h id = omega (arith, copies-split id before after job, h id)

-- The only holder of a job lets go of it.
pub let_go :
    (before after : List Job) (job : Job) (w : Placement)
    → Covers (before ++ (job ∷ after)) w
    → (copies job.id (before ++ after) ≡ 0) × (w job.id ≡ some in_active)
let_go before after job w h =
    let n : 1 + copies job.id (before ++ after) ≤ at_place (w job.id) in_active =
      omega (arith, copies-split job.id before after job, h job.id, ap tally (eq_refl job.id)) in
    (
      omega (arith, n, at_place_le (w job.id) in_active),
      at_place_pos (w job.id) in_active (omega (arith, n)),
    )

-- An id without a record stands nowhere.
pub unrecorded :
    (c : Codec) (v : Value c.Data) (id : String) (o : Option Place)
    → Recorded c v id o
    → v ≡ missing
    → o ≡ none
unrecorded c v id none h e = refl
unrecorded c v id (some p) h e = absurd (cc (e, h.holds))
