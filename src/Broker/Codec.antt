-- ===== src/Broker/Codec.antt =====
-- encoding/json on jobs, and the field that a script reads by cjson: not part of the program, so an
-- interface. `none` is an error of the call.
use mini_sidekiq.Prelude.{String, ◌≡◌, Option, some}
use mini_sidekiq.Job.{Job}

pub record Codec : Type 1 where
  pub Data : Type 0
  pub marshal : Job → Option Data
  pub unmarshal : Data → Option Job
  pub queue_of : Data → Option String
  -- A job comes back from its own text, and its "queue" is the one in the text.
  pub unmarshal-marshal : (j : Job) (d : Data) → marshal j ≡ some d → unmarshal d ≡ some j
  pub queue_of-marshal : (j : Job) (d : Data) → marshal j ≡ some d → queue_of d ≡ some j.queue
