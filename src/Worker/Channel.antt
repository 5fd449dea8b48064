-- ===== src/Worker/Channel.antt =====
-- internal/worker/pool.go: the channel between Submit and the workers, as a step relation. Any worker
-- and any submitter may take the next step.
use mini_sidekiq.Prelude.{
  ℕ, suc, ◌+◌, ◌≤◌, ◌<◌, ◌≡◌, refl, ap, List, [], ◌∷◌, ◌++◌, length, length-append, Bool, true,
  false, arith,
}
use mini_sidekiq.Job.{Job}

-- `idle` workers wait in the select of `runWorker`; `done` says that the context is cancelled.
pub record Channel : Type 0 where
  pub buffer : List Job
  pub idle : ℕ
  pub running : List Job
  pub finished : List Job
  pub exited : ℕ
  pub submitted : ℕ
  pub done : Bool

-- `Start`, with all workers launched.
unfoldable pub start : ℕ → Channel
start workers = record {
  buffer = [];
  idle = workers;
  running = [];
  finished = [];
  exited = 0;
  submitted = 0;
  done = false;
}

-- `capacity` is the size of the buffer, positive as NewServer sets it: the hand-over of an unbuffered
-- channel is left out.
pub data Step (capacity : ℕ) : Channel → Channel → Type 0 where
  -- Submit, when the buffer has room. It blocks otherwise, or gives up once the context is done.
  submits :
      (s : Channel) (job : Job)
      → length s.buffer < capacity
      → Step capacity s (record s { buffer = s.buffer ++ (job ∷ []); submitted = suc s.submitted })
  -- A worker receives the oldest job.
  receives :
      (s : Channel) (job : Job) (rest : List Job) (n : ℕ)
      → s.buffer ≡ job ∷ rest
      → s.idle ≡ suc n
      → Step capacity s (record s { buffer = rest; idle = n; running = job ∷ s.running })
  -- `process` returns.
  finishes :
      (s : Channel) (before after : List Job) (job : Job)
      → s.running ≡ before ++ (job ∷ after)
      → Step capacity s
          (record s { idle = suc s.idle; running = before ++ after; finished = job ∷ s.finished })
  cancels : (s : Channel) → Step capacity s (record s { done = true })
  -- A worker sees the end of the context. It may, also if the buffer has jobs.
  exits :
      (s : Channel) (n : ℕ)
      → s.done ≡ true
      → s.idle ≡ suc n
      → Step capacity s (record s { idle = n; exited = suc s.exited })

pub data Steps (capacity : ℕ) (s : Channel) : Channel → Type 0 where
  stay : Steps capacity s s
  then_step : {t u : Channel} → Steps capacity s t → Step capacity t u → Steps capacity s u

-- The buffer keeps its size, each worker is idle, runs one job or has exited, and each job that was
-- submitted is in the buffer, running or finished.
pub record IsSound (capacity workers : ℕ) (s : Channel) : Type 0 where
  pub bounded : length s.buffer ≤ capacity
  pub staffed : s.idle + length s.running + s.exited ≡ workers
  pub kept : s.submitted ≡ length s.buffer + length s.running + length s.finished

module _ (capacity workers : ℕ) where
  pub Step-IsSound :
      {s t : Channel} → IsSound capacity workers s → Step capacity s t → IsSound capacity workers t
  Step-IsSound h (submits s job room) = record {
    bounded = omega (arith, room, length-append s.buffer (job ∷ []));
    staffed = h.staffed;
    kept = omega (arith, h.kept, length-append s.buffer (job ∷ []));
  }
  Step-IsSound h (receives s job rest n e i) = record {
    bounded = omega (arith, h.bounded, ap length e);
    staffed = omega (arith, h.staffed, i);
    kept = omega (arith, h.kept, ap length e);
  }
  Step-IsSound h (finishes s before after job e) = record {
    bounded = h.bounded;
    staffed = omega (
      arith,
      h.staffed,
      ap length e,
      length-append before (job ∷ after),
      length-append before after,
    );
    kept = omega (
      arith,
      h.kept,
      ap length e,
      length-append before (job ∷ after),
      length-append before after,
    );
  }
  Step-IsSound h (cancels s) = record { bounded = h.bounded; staffed = h.staffed; kept = h.kept }
  Step-IsSound h (exits s n d i) = record {
    bounded = h.bounded;
    staffed = omega (arith, h.staffed, i);
    kept = h.kept;
  }

  Steps-IsSound :
      {s t : Channel} → IsSound capacity workers s → Steps capacity s t → IsSound capacity workers t
  Steps-IsSound h stay = h
  Steps-IsSound h (then_step before step) = Step-IsSound (Steps-IsSound h before) step

  pub start-IsSound : IsSound capacity workers (start workers)
  unfolding start
  start-IsSound = record { bounded = omega arith; staffed = omega arith; kept = refl }

  -- However the submitters and the workers interleave, the buffer never exceeds its capacity, no more
  -- jobs run at a time than there are workers, no submitted job is lost from sight, and when all
  -- workers have exited, and so Stop returns, no job is still running.
  pub Steps-safe :
      {s : Channel}
      → Steps capacity (start workers) s
      → (length s.buffer ≤ capacity)
        × (length s.running ≤ workers)
        × (s.submitted ≡ length s.buffer + length s.running + length s.finished)
        × (s.exited ≡ workers → length s.running ≡ 0)
  Steps-safe steps =
      let h = Steps-IsSound start-IsSound steps in
      (h.bounded, omega (arith, h.staffed), h.kept, λ e. omega (arith, h.staffed, e))
