-- ===== src/Broker/Lifecycle/Diagram.antt =====
-- The life of a job as a diagram of places.
use mini_sidekiq.Prelude.{
  String, ◌≡◌, ap, subst, ◌⊎◌, inl, inr, Option, some, none, arith, eq_iff, Bool-cases, ◌==◌,
}
use mini_sidekiq.Broker.Keys.{Place, in_queue, in_retry, in_dead, in_active, in_scheduled}
use mini_sidekiq.Broker.Tracking.{Placement, put, forget}

-- The diagram: where a job may go from where it stands.
pub data Leads : Place → Place → Type 0 where
  start : {q : String} → Leads (in_queue q) in_active
  retry : {q : String} → Leads in_active (in_retry q)
  bury : {q : String} → Leads in_active (in_dead q)
  wake : {q : String} → Leads in_scheduled (in_queue q)
  again : {q : String} → Leads (in_retry q) (in_queue q)
  revive : {q : String} → Leads (in_dead q) (in_queue q)

-- One step of the store, seen as a placement, and the job that it may end.
pub data Life (w : Placement) : Option String → Placement → Type 0 where
  stays : {l : Option String} → Life w l w
  enters : (id : String) (p : Place) → w id ≡ none → Life w none (put id p w)
  moves : (id : String) {p q : Place} → w id ≡ some p → Leads p q → Life w none (put id q w)
  ends : (id : String) (p : Place) → w id ≡ some p → Life w (some id) (forget id w)

-- What a step makes of a job: it stays, follows the diagram, or is the one that ends.
pub Life-job :
    {w w' : Placement} {l : Option String} (id : String) (p : Place)
    → Life w l w'
    → w id ≡ some p
    → (w' id ≡ some p) ⊎ ((q : Place) × Leads p q × (w' id ≡ some q)) ⊎ (l ≡ some id)
Life-job id p stays h = inl h
Life-job id p (enters j q new) h = inl (ground (arith, h, new, eq_iff j id))
Life-job {w} id p (moves j {p = p'} {q = q} here leads) h = elim (Bool-cases (j == id)) [
  | inl e ↦
      let same : p' ≡ p = ground (arith, here, h, ap w ((eq_iff j id).0 e)) in
      inr (inl (q, subst (λ x. Leads x q) same leads, rw e))
  | inr e ↦ inl (rw e h)
]
Life-job id p (ends j q here) h = elim (Bool-cases (j == id)) [
  | inl e ↦ inr (inr (ap some ((eq_iff j id).0 e)))
  | inr e ↦ inl (rw e h)
]
