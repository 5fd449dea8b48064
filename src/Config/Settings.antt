-- ===== src/Config/Settings.antt =====
-- What config/config.go relies on of viper: its documented order of precedence.
use Prim.Native.Char.{Char, code}
use mini_sidekiq.Prelude.{
  ℕ, String, ◌≡◌, ◌≢◌, List, [], ◌∷◌, Option, none, some, Bool, true, false, ℤ, ◌==◌, if◌then◌else◌,
  eqb, ◌<>◌,
}

-- Concurrency and the durations, in nanoseconds, are not negative; `queues` is in the order in which
-- the map is visited.
pub record Config : Type 0 where
  pub redis_addr : String
  pub dashboard_addr : String
  pub concurrency : ℕ
  pub queues : List (String × ℤ)
  pub poll_interval : ℕ
  pub scheduler_interval : ℕ

-- The value of a key, as set by the program, read from a YAML file or found in the environment.
pub data Setting : Type 0 where
  text : String → Setting
  number : ℕ → Setting
  weights : List (String × ℤ) → Setting

-- `strings.NewReplacer(".", "_")`
abbrev replaced : Char → String
replaced c = if eqb (code c) b'.' then "_" else String.◌∷◌ c ""

unfoldable pub underscores : String → String
underscores String.[] = ""
underscores (String.◌∷◌ c s) = replaced c <> underscores s

pub data ReadError : Type 0 where
  config_file_not_found not_exist unreadable : ReadError

-- What stands at a path: nothing, what viper cannot read, or the keys of a YAML file, in
-- lower case, as viper keeps them.
pub data File : Type 0 where
  absent broken : File
  keys : List (String × Setting) → File

-- A variable that is not set is empty.
pub record Os : Type 0 where
  pub env : String → String
  pub file : String → File

abbrev pub find_key : String → List (String × Setting) → Option Setting
find_key k [] = none
find_key k ((a, v) ∷ l) = if a == k then some v else find_key k l

-- Only `queues` may be a map.
abbrev pub IsPlain : List (String × Setting) → Type 0
IsPlain l =
    (k : String) (queues : List (String × ℤ)) → k ≢ "queues" → find_key k l ≢ some (weights queues)

abbrev pub from_env : String → Option Setting
from_env s = if s == "" then none else some (text s)

abbrev pub first_of : Option Setting → Option Setting → Option Setting
first_of none b = b
first_of (some a) b = some a

-- What an instance has been told.
pub record View : Type 0 where
  pub default : List (String × Setting)
  pub file : List (String × Setting)
  pub prefix : String
  pub replacer : String → String
  pub automatic : Bool
  pub path : String

abbrev pub untold : View
untold = record {
  default = [];
  file = [];
  prefix = "";
  replacer = λ k. k;
  automatic = false;
  path = "";
}

-- How the values of the keys become fields.
pub record Decoder : Type 0 where
  pub as_text : Option Setting → Option String
  pub as_number : Option Setting → Option ℕ
  pub as_duration : Option Setting → Option ℕ
  pub as_weights : Option Setting → Option (List (String × ℤ))

module _ {A B : Type 0} where
  infixl 5 ◌>>=◌
  abbrev ◌>>=◌ : Option A → (A → Option B) → Option B
  none >>= f = none
  some a >>= f = f a

-- `queues` is the value for the key of that name.
abbrev pub fields : Decoder → Option Setting → (String → Option Setting) → Option Config
fields d queues get = do
  redis_addr ← d.as_text (get "redis_addr")
  dashboard_addr ← d.as_text (get "dashboard_addr")
  concurrency ← d.as_number (get "concurrency")
  queues ← d.as_weights queues
  poll_interval ← d.as_duration (get "poll_interval")
  scheduler_interval ← d.as_duration (get "scheduler_interval")
  some (record {
    redis_addr = redis_addr;
    dashboard_addr = dashboard_addr;
    concurrency = concurrency;
    queues = queues;
    poll_interval = poll_interval;
    scheduler_interval = scheduler_interval;
  })

pub record Viper : Type 1 where
  pub State : Type 0
  pub view : State → View
  pub new : State
  pub set_default : String → Setting → State → State
  pub set_env_prefix : String → State → State
  pub set_env_key_replacer : (String → String) → State → State
  pub automatic_env : State → State
  pub set_config_file : String → State → State
  pub read_in_config : Os → State → Option ReadError × State
  pub unmarshal : Os → State → Option Config
  -- The variable that overrides a key: its name in capitals behind the prefix.
  pub variable : String → String → String
  pub decoder : Decoder
  pub view-new : view new ≡ untold
  pub view-set_default :
      (k : String) (a : Setting) (s : State)
      → view (set_default k a s) ≡ record (view s) { default = (k, a) ∷ (view s).default }
  pub view-set_env_prefix :
      (p : String) (s : State) → view (set_env_prefix p s) ≡ record (view s) { prefix = p }
  pub view-set_env_key_replacer :
      (f : String → String) (s : State)
      → view (set_env_key_replacer f s) ≡ record (view s) { replacer = f }
  pub view-automatic_env :
      (s : State) → view (automatic_env s) ≡ record (view s) { automatic = true }
  pub view-set_config_file :
      (p : String) (s : State) → view (set_config_file p s) ≡ record (view s) { path = p }
  -- With a path of its own a file that is not there is an error of the file system.
  pub read-absent :
      (os : Os) (s : State)
      → os.file (view s).path ≡ absent
      → read_in_config os s ≡ (some not_exist, s)
  pub read-broken :
      (os : Os) (s : State)
      → os.file (view s).path ≡ broken
      → read_in_config os s ≡ (some unreadable, s)
  pub read-keys :
      (os : Os) (s : State) (l : List (String × Setting))
      → os.file (view s).path ≡ keys l
      → ((read_in_config os s).0 ≡ none)
        × (view (read_in_config os s).1 ≡ record (view s) { file = l })
  -- What becomes of the key `queues`, whose value is a map of its own: the environment and the file
  -- may set it or the keys inside it.
  pub nested : Os → View → Option Setting
  -- For the keys with plain values the environment counts before the file, and the file before the
  -- defaults.
  pub unmarshal-fields :
      (os : Os) (s : State)
      → IsPlain (view s).file
      → let w = view s in
        unmarshal os s
        ≡ fields decoder (nested os w) (λ k.
          first_of
            (if w.automatic then from_env (os.env (variable w.prefix (w.replacer k))) else none)
            (first_of (find_key k w.file) (find_key k w.default)))
