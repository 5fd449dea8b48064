-- ===== src/Client/Ending.antt =====
-- pkg/client/server.go: how Server.Run ends once its context is done.
use mini_sidekiq.Prelude.{
  ℕ, String, zero, suc, eqb, ◌+◌, ◌*◌, ◌≤◌, ◌<◌, ◌≡◌, ◌≢◌, refl, ap, ◌⊎◌, inl, inr, true, false,
  List, [], ◌∷◌, length, length-append, tally, Bool-cases, arith,
}
use mini_sidekiq.Job.{Job}
use mini_sidekiq.Worker.Channel.{Channel, Step, submits, receives, finishes, cancels, exits}
use mini_sidekiq.Client.Running.{
  Stage, waiting, joining, stopping, closed, Position, starting, looking, fetching, returned,
  Serving, Serves, Served, served, pool_steps, has_no_queues, begins, sees_cancelled, fetches,
  finds_nothing, dispatches, gives_up, scheduler_returns, sees_done, joins, closes, IsOrderly,
  Served-IsOrderly,
}

abbrev pub stages_left : Stage → ℕ
stages_left waiting = 3
stages_left joining = 2
stages_left stopping = 1
stages_left closed = 0

-- What is left to do: a job in the buffer is to be received, run and finished, and a worker and a
-- loop are to leave.
abbrev pub work_left : Channel → ℕ
work_left c = 3 * length c.buffer + 2 * length c.running + c.idle

-- Where it fetches, the dispatcher may submit one more job.
abbrev pub turns_left : Position → ℕ
turns_left starting = 2
turns_left looking = 1
turns_left fetching = 5
turns_left returned = 0

abbrev pub left_to_do : Serving → ℕ
left_to_do s =
    work_left s.channel + turns_left s.dispatcher + tally s.promoting + stages_left s.stage

-- So many steps, each of which changes the state, lead from one state to the other.
pub data Runs (capacity workers : ℕ) (schedule : List String) (s : Serving)
    : ℕ → Serving → Type 0 where
  stays : Runs capacity workers schedule s 0 s
  moves :
      {n : ℕ} {t u : Serving}
      → Runs capacity workers schedule s n t
      → Serves capacity workers schedule t u
      → t ≢ u
      → Runs capacity workers schedule s (suc n) u

-- A step brings the end nearer, or a job was submitted.
abbrev Nears : Channel → Channel → Type 0
Nears s t = 1 + 4 * s.submitted + work_left t ≤ work_left s + 4 * t.submitted

Step-Nears :
    {capacity : ℕ} {s t : Channel}
    → Step capacity s t
    → s.done ≡ true
    → (Nears s t ⊎ (s ≡ t)) × (t.done ≡ true)
Step-Nears (submits s job room) d = (inl (omega (arith, length-append s.buffer (job ∷ []))), d)
Step-Nears (receives s job rest n e i) d = (inl (omega (arith, ap length e, i)), d)
Step-Nears (finishes s before after job e) d = (
  inl (omega (arith, ap length e, length-append before (job ∷ after), length-append before after)),
  d,
)
Step-Nears (cancels s) d = (inr (ap (λ b. record s { done = b }) d), refl)
Step-Nears (exits s n d' i) d = (inl (omega (arith, i)), d)

module _ (capacity workers : ℕ) (schedule : List String) where
  Serves-nears :
      {s t : Serving}
      → Serves capacity workers schedule s t
      → s.channel.done ≡ true
      → s ≢ t
      → (1 + left_to_do t ≤ left_to_do s) × (t.channel.done ≡ true)
  Serves-nears (pool_steps s t st same) d ne =
      let (near, d') = Step-Nears st d in
      (
        elim near [
          | inl h ↦ omega (arith, h, same)
          | inr e ↦ absurd (ne (ap (λ c. record s { channel = c }) e))
        ],
        d',
      )
  Serves-nears (has_no_queues s e x) d ne = (rw e (omega arith), d)
  Serves-nears (begins s e x) d ne = (rw e (omega arith), d)
  Serves-nears (sees_cancelled s e x) d ne = (rw e (omega arith), d)
  Serves-nears (fetches s e x) d ne = cc
  Serves-nears (finds_nothing s e) d ne = (rw e (omega arith), d)
  Serves-nears (dispatches s t e st more) d ne =
      let (near, d') = Step-Nears st d in
      (
        elim near [
          | inl h ↦ rw e (omega (arith, h, more))
          | inr same ↦ absurd (omega (arith, more, ap (λ c. c.submitted) same))
        ],
        d',
      )
  Serves-nears (gives_up s e x) d ne = (rw e (omega arith), d)
  Serves-nears (scheduler_returns s d') d ne = elim (Bool-cases s.promoting) [
    | inl e ↦ (rw e (omega arith), d)
    | inr e ↦ absurd (ne (ap (λ b. record s { promoting = b }) e))
  ]
  Serves-nears (sees_done s e d') d ne = (rw e (omega arith), d)
  Serves-nears (joins s e x y) d ne = (rw e (omega arith), d)
  Serves-nears (closes s e x) d ne = (rw e (omega arith), d)

  -- A step that brings the end nearer.
  abbrev pub Advance : Serving → Type 0
  Advance s = (t : Serving) × Serves capacity workers schedule s t × (left_to_do t < left_to_do s)

  -- A worker leaves, or finishes its job.
  worker_advances :
      (s : Serving) (idle : ℕ) (running : List Job)
      → s.channel.idle ≡ idle
      → s.channel.running ≡ running
      → s.channel.done ≡ true
      → IsOrderly capacity workers s
      → s.channel.exited ≢ workers
      → Advance s
  worker_advances s (suc n) running i l d h short =
      let left = record s.channel { idle = n; exited = suc s.channel.exited } in
      (
        record s { channel = left },
        pool_steps s left (exits s.channel n d i) refl,
        omega (arith, i),
      )
  worker_advances s zero (job ∷ rest) i l d h short =
      let finished = record s.channel {
        idle = suc s.channel.idle;
        running = rest;
        finished = job ∷ s.channel.finished;
      } in
      (
        record s { channel = finished },
        pool_steps s finished (finishes s.channel [] rest job l) refl,
        omega (arith, ap length l),
      )
  worker_advances s zero [] i l d h short =
      absurd (short (omega (arith, i, ap length l, h.sound.staffed)))

  -- Run waits for the dispatcher and for the scheduler.
  loops-Advance :
      (s : Serving) (position : Position) (queues : List String)
      → s.stage ≡ joining
      → s.dispatcher ≡ position
      → schedule ≡ queues
      → s.channel.done ≡ true
      → Advance s
  loops-Advance s starting [] e x q d =
      (record s { dispatcher = returned }, has_no_queues s x q, rw x (omega arith))
  loops-Advance s starting (name ∷ names) e x q d =
      (record s { dispatcher = looking }, begins s x (λ y. cc), rw x (omega arith))
  loops-Advance s looking queues e x q d =
      (record s { dispatcher = returned }, sees_cancelled s x d, rw x (omega arith))
  loops-Advance s fetching queues e x q d =
      (record s { dispatcher = returned }, gives_up s x d, rw x (omega arith))
  loops-Advance s returned queues e x q d = elim (Bool-cases s.promoting) [
    | inl y ↦ (record s { promoting = false }, scheduler_returns s d, rw y (omega arith))
    | inr y ↦ (record s { stage = stopping }, joins s e x y, rw e (omega arith))
  ]

  advances :
      (s : Serving) (stage : Stage)
      → s.stage ≡ stage
      → s.channel.done ≡ true
      → IsOrderly capacity workers s
      → (s.stage ≡ closed) ⊎ Advance s
  advances s waiting e d h = inr (record s { stage = joining }, sees_done s e d, rw e (omega arith))
  advances s joining e d h = inr (loops-Advance s s.dispatcher schedule e refl refl d)
  advances s stopping e d h = elim (Bool-cases (eqb s.channel.exited workers)) [
    | inl x ↦ inr (record s { stage = closed }, closes s e (ground (arith, x)), rw e (omega arith))
    | inr x ↦ inr (
        worker_advances s s.channel.idle s.channel.running refl refl d h
          (λ y. ground (arith, x, y)))
  ]
  advances s closed e d h = inl e

  Runs-nears :
      {s : Serving} {n : ℕ} {t : Serving}
      → Runs capacity workers schedule s n t
      → Served capacity workers schedule s
      → s.channel.done ≡ true
      → (n + left_to_do t ≤ left_to_do s)
        × (t.channel.done ≡ true)
        × Served capacity workers schedule t
  Runs-nears stays r d = (omega arith, d, r)
  Runs-nears (moves runs st ne) r d =
      let (near, d', r') = Runs-nears runs r d in
      let (nearer, d'') = Serves-nears st d' ne in (omega (arith, near, nearer), d'', served r' st)

  -- Once its context is done, Server.Run ends, however its goroutines interleave, if every handler
  -- and every call of the broker returns: from a state that it has reached, no more steps that
  -- change something can be taken than there was left to do, which counts one more job if the
  -- dispatcher is just fetching it; and until the broker is closed, there is always a step that
  -- leaves less to do.
  pub Runs-end :
      (n : ℕ) (s t : Serving)
      → Served capacity workers schedule s
      → s.channel.done ≡ true
      → Runs capacity workers schedule s n t
      → (n + left_to_do t ≤ left_to_do s) × ((t.stage ≡ closed) ⊎ Advance t)
  Runs-end n s t r d runs =
      let (near, d', r') = Runs-nears runs r d in
      (near, advances t t.stage refl d' (Served-IsOrderly capacity workers schedule r'))
