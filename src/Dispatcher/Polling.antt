-- ===== src/Dispatcher/Polling.antt =====
-- How often the dispatcher polls each queue.
use mini_sidekiq.Prelude.{
  ℕ, zero, suc, ◌+◌, ◌*◌, ◌%◌, ◌<◌, String, ◌≡◌, refl, ◌∙◌, ap, List, [], ◌∷◌, length, replicate,
  get_elem?, count, tally, count-append, Option, none, some, true, false, ℤ, pos, negsuc, to_ℕ,
  sum_from, sum_from-period, plus_zero, plus_suc, ◌==◌, arith,
}
use native.Mathlib.Nat.{add-mod_right, mod-eq_of_lt, mod-lt}
use mini_sidekiq.Exec.{Result, ok, err}
use mini_sidekiq.Job.{Job}
use mini_sidekiq.Broker.Interface.{Broker}
use mini_sidekiq.Dispatcher.{
  QueueConfig, Turn, Progress, again, turns, build_poll_schedule, answer, polling, turn_at,
  queue_at, run,
}

-- The weights that a configuration gives to a name, where they are positive.
abbrev pub total_weight : String → List QueueConfig → ℕ
total_weight name [] = 0
total_weight name (q ∷ queues) = tally (q.name == name) * to_ℕ q.weight + total_weight name queues

count-replicate : (name q : String) (n : ℕ) → count name (replicate n q) ≡ tally (q == name) * n
count-replicate name q zero = omega arith
count-replicate name q (suc n) = grind (arith, count-replicate name q n)

count-turns :
    (name : String) (q : QueueConfig) (weight : ℤ)
    → count name (turns (record q { weight = weight })) ≡ tally (q.name == name) * to_ℕ weight
count-turns name q (pos n) = count-replicate name q.name n
count-turns name q (negsuc n) = omega arith

-- The schedule has each queue name as often as the weights of its entries say, where an entry whose
-- weight is not positive counts for nothing.
pub count-build_poll_schedule :
    (name : String) (queues : List QueueConfig)
    → count name (build_poll_schedule queues) ≡ total_weight name queues
unfolding build_poll_schedule
count-build_poll_schedule name [] = refl
count-build_poll_schedule name (q ∷ queues) = omega (
  arith,
  count-append name (turns q) (build_poll_schedule queues),
  count-turns name q q.weight,
  count-build_poll_schedule name queues,
)

-- Whether a name is polled in the turn `idx`.
abbrev hit : String → Option String → ℕ
hit name none = 0
hit name (some q) = tally (q == name)

abbrev hits : String → List String → ℕ → ℕ
hits name schedule idx = hit name (queue_at schedule idx)

hits-period :
    (name : String) (schedule : List String) (idx : ℕ)
    → hits name schedule (idx + length schedule) ≡ hits name schedule idx
hits-period name [] idx = refl
hits-period name (q ∷ qs) idx = rw (add-mod_right idx (suc (length qs))) refl

zero_plus : (j : ℕ) → 0 + j ≡ j
zero_plus j = omega arith

suc_lt : (j n : ℕ) → j < n → suc j < suc n
suc_lt j n h = omega arith

sum-count :
    (f : ℕ → ℕ) (name : String) (ys : List String) (i : ℕ)
    → ((j : ℕ) → j < length ys → f (i + j) ≡ hit name (get_elem? ys j))
    → sum_from f i (length ys) ≡ count name ys
sum-count f name [] i h = refl
sum-count f name (y ∷ ys) i h = omega (
  arith,
  ap f (plus_zero i),
  h 0 (omega arith),
  sum-count f name ys (i + 1) (λ j l. ap f (plus_suc i j) ∙ h (suc j) (suc_lt j _ l)),
)

zero_plus-mod : (j n : ℕ) → j < suc n → (0 + j) % suc n ≡ j
zero_plus-mod j n h = ap (λ i. i % suc n) (zero_plus j) ∙ mod-eq_of_lt h

sum-hits :
    (name : String) (schedule : List String) (idx : ℕ)
    → sum_from (hits name schedule) idx (length schedule) ≡ count name schedule
sum-hits name [] idx = refl
sum-hits name (q ∷ qs) idx =
    sum_from-period (hits name (q ∷ qs)) (suc (length qs)) (hits-period name (q ∷ qs)) idx
    ∙ sum-count (hits name (q ∷ qs)) name (q ∷ qs) 0
        (λ j l. ap (λ i. hit name (get_elem? (q ∷ qs) i)) (zero_plus-mod j _ l))

-- A turn in which the context is not done and the pool takes the job.
abbrev pub Calm : Turn → Type 0
Calm turn = (turn.done_before ≡ false) × (turn.done_after ≡ false) × (turn.accepted ≡ true)

abbrev pub CalmAll : List Turn → Type 0
CalmAll [] = Unit {0}
CalmAll (turn ∷ turns) = Calm turn × CalmAll turns

get_elem?-some :
    (xs : List String) (i : ℕ) → i < length xs → (a : String) × (get_elem? xs i ≡ some a)
get_elem?-some [] i h = absurd (omega arith)
get_elem?-some (x ∷ xs) zero h = (x, refl)
get_elem?-some (x ∷ xs) (suc i) h = get_elem?-some xs i (omega arith)

queue_at-some :
    (schedule : List String) (idx : ℕ)
    → 0 < length schedule
    → (q : String) × (queue_at schedule idx ≡ some q)
queue_at-some [] idx h = absurd (omega arith)
queue_at-some (q ∷ qs) idx h =
    get_elem?-some (q ∷ qs) (idx % suc (length qs)) (mod-lt idx (omega arith))

answer-polled :
    (turn : Turn) (queue : String) (result : Result (Option Job)) (p : Progress)
    → Calm turn
    → ((answer turn queue result p).0 ≡ again) × ((answer turn queue result p).1.polled ≡ p.polled)
answer-polled turn queue (err e) p (before, after, taken) = rw after (refl, refl)
answer-polled turn queue (ok none) p (before, after, taken) = (refl, refl)
answer-polled turn queue (ok (some job)) p (before, after, taken) = rw taken (refl, refl)

module _ (b : Broker) (name : String) (schedule : List String) (h : 0 < length schedule) where
  -- While the context is not done and the pool takes the jobs, each turn polls the next queue.
  run-polls :
      (script : List Turn) (idx : ℕ) (p : Progress) (s : b.State)
      → CalmAll script
      → count name (run b schedule idx script p s).0.polled
        ≡ sum_from (hits name schedule) idx (length script) + count name p.polled
  unfolding run turn_at
  run-polls [] idx p s calm = omega arith
  run-polls (turn ∷ rest_turns) idx p s (calm, rest) =
      let (queue, e) = queue_at-some schedule idx h in
      let (result, s') = b.dequeue turn.now (queue ∷ []) s in
      let (goes, kept) = answer-polled turn queue result (polling queue p) calm in
      let p' = (answer turn queue result (polling queue p)).1 in
      let later = run-polls rest_turns (idx + 1) p' s' rest in
      simp (e, calm.0, goes, run, turn_at) (omega (arith, later, ap (count name) kept))

  -- Dispatcher.Run never starves a queue: while the context is not done and the pool takes the jobs,
  -- as many turns in a row as the schedule is long, from any turn on, poll each queue exactly as
  -- often as it stands in the schedule, whatever the broker replies.
  pub run-fair :
      (script : List Turn) (idx : ℕ) (p : Progress) (s : b.State)
      → CalmAll script
      → length script ≡ length schedule
      → count name (run b schedule idx script p s).0.polled
        ≡ count name schedule + count name p.polled
  run-fair script idx p s calm e =
      run-polls script idx p s calm
      ∙ ap (λ k. sum_from (hits name schedule) idx k + count name p.polled) e
      ∙ ap (λ k. k + count name p.polled) (sum-hits name schedule idx)
