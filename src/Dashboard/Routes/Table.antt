-- ===== src/Dashboard/Routes/Table.antt =====
-- Which handler gets which request.
use mini_sidekiq.Prelude.{String, ◌≡◌, List, [], ◌∷◌, ◌==◌, if◌then◌else◌, arith, ◌&&◌, not}
use mini_sidekiq.Dashboard.Routes.{
  Method, get, head, post, delete, other, get_queues, list_jobs, get_job, retry_job, delete_job,
  metrics, index, Route, handled, refused, route, find_route, any_route,
}

-- What the paths of the API name.
pub data Resource : Type 0 where
  all_queues all_jobs all_metrics unknown : Resource
  job retry_of : String → Resource

abbrev pub resource : List String → Resource
resource (a ∷ b ∷ c ∷ []) =
    if "api" == a && "v1" == b
    then if "queues" == c
      then all_queues
      else if "jobs" == c
      then all_jobs
      else if "metrics" == c
      then all_metrics
      else unknown
    else unknown
resource (a ∷ b ∷ c ∷ id ∷ []) =
    if "api" == a && "v1" == b && "jobs" == c && not (id == "") then job id else unknown
resource (a ∷ b ∷ c ∷ id ∷ d ∷ []) =
    if "api" == a && "v1" == b && "jobs" == c && not (id == "") && "retry" == d
    then retry_of id
    else unknown
resource _ = unknown

-- The page answers whatever is not of the API.
abbrev pub read : Resource → Route
read all_queues = handled get_queues []
read all_jobs = handled list_jobs []
read all_metrics = handled metrics []
read (job id) = handled get_job (id ∷ [])
read (retry_of id) = handled index []
read unknown = handled index []

abbrev pub answer : Method → Resource → Route
answer get r = read r
answer head r = read r
answer post (retry_of id) = handled retry_job (id ∷ [])
answer delete (job id) = handled delete_job (id ∷ [])
answer m r = refused

three :
    (m : Method) (a b c : String) → route m (a ∷ b ∷ c ∷ []) ≡ answer m (resource (a ∷ b ∷ c ∷ []))
unfolding route find_route any_route
three get a b c = ground arith
three head a b c = ground arith
three post a b c = ground arith
three delete a b c = ground arith
three (other s) a b c = ground arith

four :
    (m : Method) (a b c d : String)
    → route m (a ∷ b ∷ c ∷ d ∷ []) ≡ answer m (resource (a ∷ b ∷ c ∷ d ∷ []))
unfolding route find_route any_route
four get a b c d = ground arith
four head a b c d = ground arith
four post a b c d = ground arith
four delete a b c d = ground arith
four (other s) a b c d = ground arith

five :
    (m : Method) (a b c d e : String)
    → route m (a ∷ b ∷ c ∷ d ∷ e ∷ []) ≡ answer m (resource (a ∷ b ∷ c ∷ d ∷ e ∷ []))
unfolding route find_route any_route
five get a b c d e = ground arith
five head a b c d e = ground arith
five post a b c d e = ground arith
five delete a b c d e = ground arith
five (other s) a b c d e = ground arith

one : (m : Method) (a : String) → route m (a ∷ []) ≡ answer m unknown
unfolding route find_route any_route
one get a = ground arith
one head a = ground arith
one post a = ground arith
one delete a = ground arith
one (other s) a = ground arith

two : (m : Method) (a b : String) → route m (a ∷ b ∷ []) ≡ answer m unknown
unfolding route find_route any_route
two get a b = ground arith
two head a b = ground arith
two post a b = ground arith
two delete a b = ground arith
two (other s) a b = ground arith

longer :
    (m : Method) (a b c d e f : String) (path : List String)
    → route m (a ∷ b ∷ c ∷ d ∷ e ∷ f ∷ path) ≡ answer m unknown
unfolding route find_route any_route
longer get a b c d e f path = ground arith
longer head a b c d e f path = ground arith
longer post a b c d e f path = ground arith
longer delete a b c d e f path = ground arith
longer (other s) a b c d e f path = ground arith

-- Every request gets the handler of what its path names: the queues, the jobs and the metrics can be
-- read, a job can be read or deleted, and its retry can be posted. Reading any other path gets the
-- page, and every other request is refused as a method that is not allowed, never as a page that is
-- not found.
pub route-answer :
    (m : Method) (s : String) (path : List String)
    → route m (s ∷ path) ≡ answer m (resource (s ∷ path))
route-answer m a [] = one m a
route-answer m a (b ∷ []) = two m a b
route-answer m a (b ∷ c ∷ []) = three m a b c
route-answer m a (b ∷ c ∷ d ∷ []) = four m a b c d
route-answer m a (b ∷ c ∷ d ∷ e ∷ []) = five m a b c d e
route-answer m a (b ∷ c ∷ d ∷ e ∷ f ∷ path) = longer m a b c d e f path
