-- ===== src/Tests/Running.antt =====
-- The theorems on Server.Run, at a run with one worker that ends with a job left in the buffer.
use mini_sidekiq.Prelude.{
  String, List, ◌≢◌, ◌+◌, ◌≤◌, ap, ◌⊎◌, ◌≡◌, refl, [], ◌∷◌, length, false, true, arith,
}
use mini_sidekiq.Worker.Channel.{Channel, start, submits, cancels, exits}
use mini_sidekiq.Client.Running.{
  Serving, Served, started, served, start_serving, pool_steps, begins, fetches, dispatches,
  sees_cancelled, fetching, looking, returned, scheduler_returns, sees_done, joins, closes, closed,
  waiting, closed_last,
}
use mini_sidekiq.Client.Ending.{left_to_do, Advance, stays, moves, Runs-end}
use mini_sidekiq.Tests.Fixtures.{mail}

abbrev filled : Channel
filled = record {
  buffer = mail ∷ [];
  idle = 1;
  running = [];
  finished = [];
  exited = 0;
  submitted = 1;
  done = false;
}

abbrev left : Channel
left = record filled { idle = 0; exited = 1; done = true }

abbrev shut : Serving
shut = record { channel = left; dispatcher = returned; promoting = false; stage = closed }

abbrev polled : List String
polled = "mail" ∷ []

one_queue : polled ≢ []
one_queue e = cc

-- The dispatcher has fetched its job when the context is done, and submits it all the same.
abbrev fetched : Serving
fetched = record {
  channel = record (start 1) { done = true };
  dispatcher = fetching;
  promoting = true;
  stage = waiting;
}

fetched-Served : Served 2 1 polled fetched
unfolding start_serving start
fetched-Served =
    let begun = served started (begins _ refl one_queue) in
    let at_broker = served begun (fetches _ refl refl) in
    served at_broker (pool_steps _ (record (start 1) { done = true }) (cancels (start 1)) refl)

abbrev cancelled : Serving
cancelled = record fetched { channel = record filled { done = true }; dispatcher = looking }

cancelled-Served : Served 2 1 polled cancelled
unfolding start_serving start
cancelled-Served = served fetched-Served (
    dispatches fetched (record filled { done = true }) refl
      (submits fetched.channel mail (omega arith)) refl)

shut-Served : Served 2 1 polled shut
shut-Served =
    let left_alone =
      served cancelled-Served
        (pool_steps _ left (exits (record filled { done = true }) 0 refl refl) refl) in
    let fetched = served left_alone (sees_cancelled _ refl refl) in
    let promoted = served fetched (scheduler_returns _ refl) in
    let seen = served promoted (sees_done _ refl refl) in
    let joined = served seen (joins _ refl refl refl) in served joined (closes _ refl refl)

closed_last_example :
    (shut.dispatcher ≡ returned)
    × (shut.promoting ≡ false)
    × (shut.channel.idle ≡ 0)
    × (length shut.channel.running ≡ 0)
    × (shut.channel.submitted ≡ length shut.channel.buffer + length shut.channel.finished)
closed_last_example = closed_last 2 1 polled shut shut-Served refl

Runs-end_example :
    (1 + left_to_do cancelled ≤ left_to_do fetched)
    × ((cancelled.stage ≡ closed) ⊎ Advance 2 1 polled cancelled)
unfolding start
Runs-end_example = Runs-end 2 1 polled 1 fetched cancelled fetched-Served refl (
    moves stays
      (dispatches fetched (record filled { done = true }) refl
        (submits fetched.channel mail (omega arith)) refl)
      (λ e. omega (arith, ap (λ s. s.channel.submitted) e)))
