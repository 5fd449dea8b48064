-- ===== src/Dashboard/Routes.antt =====
-- internal/dashboard/server.go: the patterns that the API is registered under, and how the ServeMux of
-- net/http finds the one for a request.
pub mod Table
use mini_sidekiq.Prelude.{
  ℕ, String, List, [], ◌∷◌, Option, none, some, Bool, true, false, ◌==◌, if◌then◌else◌,
}

pub data Method : Type 0 where
  get head post delete : Method
  other : String → Method

pub data Segment : Type 0 where
  literal : String → Segment
  wildcard : Segment

-- `subtree` is the slash at the end of a pattern.
pub record Pattern : Type 0 where
  pub method : Method
  pub segments : List Segment
  pub subtree : Bool

-- The handlers of server.go, by name.
pub data Endpoint : Type 0 where
  get_queues list_jobs get_job retry_job delete_job metrics index : Endpoint

abbrev api : Method → List Segment → Pattern
api method segments = record {
  method = method;
  segments = literal "api" ∷ literal "v1" ∷ segments;
  subtree = false;
}

abbrev pub routes : List (Pattern × Endpoint)
routes =
    (api get (literal "queues" ∷ []), get_queues)
    ∷ (api get (literal "jobs" ∷ []), list_jobs)
    ∷ (api get (literal "jobs" ∷ wildcard ∷ []), get_job)
    ∷ (api post (literal "jobs" ∷ wildcard ∷ literal "retry" ∷ []), retry_job)
    ∷ (api delete (literal "jobs" ∷ wildcard ∷ []), delete_job)
    ∷ (api get (literal "metrics" ∷ []), metrics)
    ∷ (record { method = get; segments = []; subtree = true }, index)
    ∷ []

-- A path is what stands between its slashes: "/" is one empty segment, and only the last one may be
-- empty, since other paths are redirected. A pattern with GET serves HEAD too.
abbrev pub allows : Method → Method → Bool
allows get get = true
allows get head = true
allows head head = true
allows post post = true
allows delete delete = true
allows (other a) (other b) = a == b
allows _ _ = false

abbrev capture : String → Option (List String) → Option (List String)
capture s none = none
capture s (some values) = some (s ∷ values)

-- The values of the wildcards, if the pattern matches.
abbrev pub match_path : List Segment → Bool → List String → Option (List String)
match_path [] false [] = some []
match_path [] false (s ∷ path) = none
match_path [] true [] = none
match_path [] true (s ∷ path) = some []
match_path (g ∷ segments) subtree [] = none
match_path (literal l ∷ segments) subtree (s ∷ path) =
    let rest = match_path segments subtree path in if l == s then rest else none
match_path (wildcard ∷ segments) subtree (s ∷ path) =
    let rest = match_path segments subtree path in if s == "" then none else capture s rest

-- Of two patterns that match a path, the first is more specific.
abbrev pub outranks : List Segment → List Segment → Bool
outranks [] q = false
outranks (g ∷ p) [] = true
outranks (literal a ∷ p) (literal b ∷ q) = outranks p q
outranks (literal a ∷ p) (wildcard ∷ q) = true
outranks (wildcard ∷ p) (literal b ∷ q) = false
outranks (wildcard ∷ p) (wildcard ∷ q) = outranks p q

abbrev pub Match : Type 0
Match = Pattern × Endpoint × List String

abbrev better : Match → Option Match → Option Match
better x none = some x
better x (some y) = if outranks y.0.segments x.0.segments then some y else some x

abbrev consider : Pattern → Endpoint → Option (List String) → Option Match → Option Match
consider p e none rest = rest
consider p e (some values) rest = better (p, e, values) rest

-- The most specific pattern for a method and a path.
unfoldable pub find_route : List (Pattern × Endpoint) → Method → List String → Option Match
find_route [] m path = none
find_route ((p, e) ∷ table) m path =
    let rest = find_route table m path in
    if allows p.method m then consider p e (match_path p.segments p.subtree path) rest else rest

abbrev or_match : Option (List String) → Bool → Bool
or_match none b = b
or_match (some values) b = true

-- Whether a pattern of any method matches the path.
unfoldable pub any_route : List (Pattern × Endpoint) → List String → Bool
any_route [] path = false
any_route ((p, e) ∷ table) path =
    or_match (match_path p.segments p.subtree path) (any_route table path)

pub data Route : Type 0 where
  handled : Endpoint → List String → Route
  refused unmatched : Route

unfoldable pub route : Method → List String → Route
route m path = elim (find_route routes m path) [
  | some (p, e, values) ↦ handled e values
  | none ↦ if any_route routes path then refused else unmatched
]
