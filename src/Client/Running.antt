-- ===== src/Client/Running.antt =====
-- pkg/client/server.go: Server.Run, as a step relation of its goroutines; the dispatcher's are those
-- of Dispatcher.Run in internal/dispatcher/dispatcher.go.
use mini_sidekiq.Prelude.{
  ℕ, suc, String, List, [], ◌≢◌, sym, ◌∙◌, ◌+◌, ◌≤◌, ◌≡◌, refl, Bool, true, false, length, arith,
}
use mini_sidekiq.Worker.Channel.{
  Channel, Step, start, submits, receives, finishes, cancels, exits, IsSound, Step-IsSound,
  start-IsSound,
}

-- Where Run itself is: at `<-ctx.Done()`, at `wg.Wait()`, at `pool.Stop()`, or past `broker.Close()`.
pub data Stage : Type 0 where
  waiting joining stopping closed : Stage

-- Where the dispatcher is: before its loop, at the top of it, where it looks whether the context is
-- done, at Dequeue, Submit or the sleep, or gone.
pub data Position : Type 0 where
  starting looking fetching returned : Position

-- The pool with the context, the dispatcher, whether the loop of the scheduler still runs, and Run.
pub record Serving : Type 0 where
  pub channel : Channel
  pub dispatcher : Position
  pub promoting : Bool
  pub stage : Stage

unfoldable pub start_serving : ℕ → Serving
start_serving workers = record {
  channel = start workers;
  dispatcher = starting;
  promoting = true;
  stage = waiting;
}

pub data Serves (capacity workers : ℕ) (schedule : List String) : Serving → Serving → Type 0 where
  -- A step of the workers, or the end of the context.
  pool_steps :
      (s : Serving) (t : Channel)
      → Step capacity s.channel t
      → t.submitted ≡ s.channel.submitted
      → Serves capacity workers schedule s (record s { channel = t })
  -- An empty schedule is an error, and the dispatcher returns at once.
  has_no_queues :
      (s : Serving)
      → s.dispatcher ≡ starting
      → schedule ≡ []
      → Serves capacity workers schedule s (record s { dispatcher = returned })
  begins :
      (s : Serving)
      → s.dispatcher ≡ starting
      → schedule ≢ []
      → Serves capacity workers schedule s (record s { dispatcher = looking })
  -- The top of the loop.
  sees_cancelled :
      (s : Serving)
      → s.dispatcher ≡ looking
      → s.channel.done ≡ true
      → Serves capacity workers schedule s (record s { dispatcher = returned })
  fetches :
      (s : Serving)
      → s.dispatcher ≡ looking
      → s.channel.done ≡ false
      → Serves capacity workers schedule s (record s { dispatcher = fetching })
  -- Dequeue has no job or fails, and the dispatcher has slept.
  finds_nothing :
      (s : Serving)
      → s.dispatcher ≡ fetching
      → Serves capacity workers schedule s (record s { dispatcher = looking })
  -- Dequeue has a job, and Submit finds room for it.
  dispatches :
      (s : Serving) (t : Channel)
      → s.dispatcher ≡ fetching
      → Step capacity s.channel t
      → t.submitted ≡ suc s.channel.submitted
      → Serves capacity workers schedule s (record s { channel = t; dispatcher = looking })
  -- Dequeue fails or Submit waits when the context is done.
  gives_up :
      (s : Serving)
      → s.dispatcher ≡ fetching
      → s.channel.done ≡ true
      → Serves capacity workers schedule s (record s { dispatcher = returned })
  scheduler_returns :
      (s : Serving)
      → s.channel.done ≡ true
      → Serves capacity workers schedule s (record s { promoting = false })
  sees_done :
      (s : Serving)
      → s.stage ≡ waiting
      → s.channel.done ≡ true
      → Serves capacity workers schedule s (record s { stage = joining })
  joins :
      (s : Serving)
      → s.stage ≡ joining
      → s.dispatcher ≡ returned
      → s.promoting ≡ false
      → Serves capacity workers schedule s (record s { stage = stopping })
  -- Stop returns when all workers have exited, and the broker is closed.
  closes :
      (s : Serving)
      → s.stage ≡ stopping
      → s.channel.exited ≡ workers
      → Serves capacity workers schedule s (record s { stage = closed })

pub data Served (capacity workers : ℕ) (schedule : List String) : Serving → Type 0 where
  started : Served capacity workers schedule (start_serving workers)
  served :
      {s t : Serving}
      → Served capacity workers schedule s
      → Serves capacity workers schedule s t
      → Served capacity workers schedule t

-- What Run has waited for.
abbrev pub Awaited : ℕ → Stage → Position → Bool → ℕ → Type 0
Awaited workers waiting d p exited = Unit {0}
Awaited workers joining d p exited = Unit {0}
Awaited workers stopping d p exited = (d ≡ returned) × (p ≡ false)
Awaited workers closed d p exited = (d ≡ returned) × (p ≡ false) × (exited ≡ workers)

pub record IsOrderly (capacity workers : ℕ) (s : Serving) : Type 0 where
  pub sound : IsSound capacity workers s.channel
  pub awaited : Awaited workers s.stage s.dispatcher s.promoting s.channel.exited

-- Who has exited stays so.
exited-Step : {capacity : ℕ} {s t : Channel} → Step capacity s t → s.exited ≤ t.exited
exited-Step (submits s job room) = omega arith
exited-Step (receives s job rest n e i) = omega arith
exited-Step (finishes s before after job e) = omega arith
exited-Step (cancels s) = omega arith
exited-Step (exits s n d i) = omega arith

module _ (capacity workers : ℕ) (schedule : List String) where
  Awaited-exited :
      (stage : Stage) (d : Position) (p : Bool) (m n : ℕ)
      → m ≤ n
      → n ≤ workers
      → Awaited workers stage d p m
      → Awaited workers stage d p n
  Awaited-exited waiting d p m n h k a = tt
  Awaited-exited joining d p m n h k a = tt
  Awaited-exited stopping d p m n h k a = a
  Awaited-exited closed d p m n h k (x, y, e) = (x, y, omega (arith, h, k, e))

  -- A dispatcher that has not returned is not yet awaited.
  Awaited-dispatcher :
      (stage : Stage) (d d' : Position) (p : Bool) (n : ℕ)
      → d ≢ returned
      → Awaited workers stage d p n
      → Awaited workers stage d' p n
  Awaited-dispatcher waiting d d' p n ne a = tt
  Awaited-dispatcher joining d d' p n ne a = tt
  Awaited-dispatcher stopping d d' p n ne (x, y) = absurd (ne x)
  Awaited-dispatcher closed d d' p n ne (x, y, e) = absurd (ne x)

  Awaited-promoting :
      (stage : Stage) (d : Position) (p : Bool) (n : ℕ)
      → Awaited workers stage d p n
      → Awaited workers stage d false n
  Awaited-promoting waiting d p n a = tt
  Awaited-promoting joining d p n a = tt
  Awaited-promoting stopping d p n (x, y) = (x, refl)
  Awaited-promoting closed d p n (x, y, e) = (x, refl, e)

  pool-IsOrderly :
      (s : Serving) (t : Channel)
      → IsOrderly capacity workers s
      → Step capacity s.channel t
      → IsOrderly capacity workers (record s { channel = t })
  pool-IsOrderly s t h st =
      let sound' = Step-IsSound capacity workers h.sound st in
      record {
        sound = sound';
        awaited =
            Awaited-exited s.stage s.dispatcher s.promoting s.channel.exited t.exited
              (exited-Step st) (omega (arith, sound'.staffed)) h.awaited;
      }

  dispatcher-IsOrderly :
      (s : Serving) (d d' : Position)
      → IsOrderly capacity workers s
      → s.dispatcher ≡ d
      → d ≢ returned
      → IsOrderly capacity workers (record s { dispatcher = d' })
  dispatcher-IsOrderly s d d' h e ne = record {
    sound = h.sound;
    awaited =
        Awaited-dispatcher s.stage s.dispatcher d' s.promoting s.channel.exited
          (λ x. ne (sym e ∙ x)) h.awaited;
  }

  Serves-IsOrderly :
      {s t : Serving}
      → IsOrderly capacity workers s
      → Serves capacity workers schedule s t
      → IsOrderly capacity workers t
  Serves-IsOrderly h (pool_steps s t st same) = pool-IsOrderly s t h st
  Serves-IsOrderly h (has_no_queues s e none) =
      dispatcher-IsOrderly s starting returned h e (λ x. cc)
  Serves-IsOrderly h (begins s e some) = dispatcher-IsOrderly s starting looking h e (λ x. cc)
  Serves-IsOrderly h (sees_cancelled s e d) = dispatcher-IsOrderly s looking returned h e (λ x. cc)
  Serves-IsOrderly h (fetches s e d) = dispatcher-IsOrderly s looking fetching h e (λ x. cc)
  Serves-IsOrderly h (finds_nothing s e) = dispatcher-IsOrderly s fetching looking h e (λ x. cc)
  Serves-IsOrderly h (dispatches s t e st more) =
      dispatcher-IsOrderly (record s { channel = t }) fetching looking (pool-IsOrderly s t h st) e
        (λ x. cc)
  Serves-IsOrderly h (gives_up s e d) = dispatcher-IsOrderly s fetching returned h e (λ x. cc)
  Serves-IsOrderly h (scheduler_returns s d) = record {
    sound = h.sound;
    awaited = Awaited-promoting s.stage s.dispatcher s.promoting s.channel.exited h.awaited;
  }
  Serves-IsOrderly h (sees_done s e d) = record { sound = h.sound; awaited = tt }
  Serves-IsOrderly h (joins s e d p) = record { sound = h.sound; awaited = (d, p) }
  Serves-IsOrderly h (closes s e x) =
      let (d, p) : Awaited workers stopping s.dispatcher s.promoting s.channel.exited =
        rw e at h.awaited in
      record { sound = h.sound; awaited = (d, p, x) }

  pub Served-IsOrderly :
      {s : Serving} → Served capacity workers schedule s → IsOrderly capacity workers s
  unfolding start_serving
  Served-IsOrderly started = record { sound = start-IsSound capacity workers; awaited = tt }
  Served-IsOrderly (served r st) = Serves-IsOrderly (Served-IsOrderly r) st

  -- However the goroutines of Run interleave, when the broker is closed, the dispatcher and the
  -- scheduler have returned, no worker waits or runs a job, and every job that was submitted has
  -- finished or is left in the buffer.
  pub closed_last :
      (s : Serving)
      → Served capacity workers schedule s
      → s.stage ≡ closed
      → (s.dispatcher ≡ returned)
        × (s.promoting ≡ false)
        × (s.channel.idle ≡ 0)
        × (length s.channel.running ≡ 0)
        × (s.channel.submitted ≡ length s.channel.buffer + length s.channel.finished)
  closed_last s r e =
      let h = Served-IsOrderly r in
      let (d, p, x) : Awaited workers closed s.dispatcher s.promoting s.channel.exited =
        rw e at h.awaited in
      let staffed = h.sound.staffed in
      (
        d,
        p,
        omega (arith, staffed, x),
        omega (arith, staffed, x),
        omega (arith, staffed, x, h.sound.kept),
      )
