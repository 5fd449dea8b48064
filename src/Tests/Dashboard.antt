-- ===== src/Tests/Dashboard.antt =====
-- The theorems on the routes of the dashboard.
use mini_sidekiq.Prelude.{String, ◌≡◌, refl, [], ◌∷◌, List, Option, none, ℤ}
use mini_sidekiq.Broker.Interface.{redis_admin}
use mini_sidekiq.Exec.{Exec, ok}
use mini_sidekiq.Dashboard.Routes.{get, delete, route}
use mini_sidekiq.Dashboard.Routes.Table.{resource, answer, route-answer}
use mini_sidekiq.Dashboard.{Request, serve_http}
use mini_sidekiq.Dashboard.Reading.{serve_http-reads}
use mini_sidekiq.Tests.Fixtures.{plain, server, running_db, world_of}

route-answer_example :
    route delete ("api" ∷ "v1" ∷ "jobs" ∷ "a1" ∷ [])
    ≡ answer delete (resource ("api" ∷ "v1" ∷ "jobs" ∷ "a1" ∷ []))
route-answer_example = route-answer delete "api" ("v1" ∷ "jobs" ∷ "a1" ∷ [])

abbrev no_keys : String → Exec server.Db (List String)
no_keys pattern db = (ok [], db)

abbrev no_number : String → Option ℤ
no_number s = none

abbrev asks_job : Request
asks_job = record {
  method = get;
  path = "api" ∷ "v1" ∷ "jobs" ∷ "a1" ∷ [];
  status = "";
  limit = "";
  now = 9000;
}

serve_http-reads_example :
    (serve_http
      (redis_admin plain server no_keys)
      no_number
      none
      ""
      asks_job
      (world_of running_db)).1.db
    ≡ running_db
serve_http-reads_example =
    serve_http-reads plain server no_keys (λ p db. refl) no_number none "" asks_job "api"
      ("v1" ∷ "jobs" ∷ "a1" ∷ []) (world_of running_db) refl refl
