-- ===== src/Tests/Commands.antt =====
-- The theorems on the configuration and on the commands: a viper that keeps what it is told, and a
-- configuration file with one key.
use Prim.Native.Char.{Char}
use mini_sidekiq.Prelude.{
  zero, suc, inl, inr, ℕ, String, ◌≡◌, refl, ap, List, [], ◌∷◌, Option, none, some, ℤ, pos, ◌==◌,
  ◌<>◌, if◌then◌else◌, arith, true, Bool,
}
use mini_sidekiq.Broker.Network.{lost_reply}
use mini_sidekiq.Broker.Interface.{redis_broker}
use mini_sidekiq.Client.{Server, Inputs}
use mini_sidekiq.Config.Settings.{
  Config, Setting, text, number, weights, File, absent, broken, keys, Os, ReadError, not_exist,
  unreadable, underscores, View, untold, find_key, from_env, first_of, fields, Decoder, Viper,
}
use mini_sidekiq.Config.{defaults, load}
use mini_sidekiq.Config.Loading.{HasPlain, expected, load-expected}
use mini_sidekiq.Commands.{server_main, runs, Flags, build_server, enqueue_main}
use mini_sidekiq.Commands.Copying.{Copies, Suits, enqueue_main-Copies}
use mini_sidekiq.Tests.Fixtures.{plain, server, empty-Tracks, nowhere}

abbrev as_text : Option Setting → Option String
as_text (some (text s)) = some s
as_text _ = none

abbrev as_number : Option Setting → Option ℕ
as_number (some (number n)) = some n
as_number _ = none

abbrev as_weights : Option Setting → Option (List (String × ℤ))
as_weights (some (weights l)) = some l
as_weights _ = none

abbrev decoder : Decoder
decoder = record {
  as_text = as_text;
  as_number = as_number;
  as_duration = as_number;
  as_weights = as_weights;
}

abbrev variable : String → String → String
variable prefix key = if key == "redis_addr" then "SIDEKIQ_REDIS_ADDR" else prefix <> "_" <> key

abbrev read_file : View → File → Option ReadError × View
read_file w absent = (some not_exist, w)
read_file w broken = (some unreadable, w)
read_file w (keys l) = (none, record w { file = l })

abbrev layered_keys : Os → View → String → Option Setting
layered_keys os w k =
    first_of (if w.automatic then from_env (os.env (variable w.prefix (w.replacer k))) else none)
      (first_of (find_key k w.file) (find_key k w.default))

abbrev plain_viper : Viper
plain_viper = record {
  State = View;
  view = λ w. w;
  new = untold;
  set_default = λ k a w. record w { default = (k, a) ∷ w.default };
  set_env_prefix = λ p w. record w { prefix = p };
  set_env_key_replacer = λ f w. record w { replacer = f };
  automatic_env = λ w. record w { automatic = true };
  set_config_file = λ p w. record w { path = p };
  read_in_config = λ os w. read_file w (os.file w.path);
  unmarshal = λ os w. fields decoder (layered_keys os w "queues") (layered_keys os w);
  nested = λ os w. layered_keys os w "queues";
  variable = variable;
  decoder = decoder;
  view-new = refl;
  view-set_default = λ k a w. refl;
  view-set_env_prefix = λ p w. refl;
  view-set_env_key_replacer = λ f w. refl;
  view-automatic_env = λ w. refl;
  view-set_config_file = λ p w. refl;
  read-absent = λ os w e. rw e refl;
  read-broken = λ os w e. rw e refl;
  read-keys = λ os w l e. rw e (refl, refl);
  unmarshal-fields = λ os w plain. refl;
}

abbrev os : Os
os = record {
  env = λ name. if name == "SIDEKIQ_REDIS_ADDR" then "redis:6379" else "";
  file = λ path. if path == "config.yaml" then keys (("concurrency", number 4) ∷ []) else absent;
}

os-HasPlain : HasPlain plain_viper os "config.yaml"
os-HasPlain l e k queues ne h =
    let one : keys (("concurrency", number 4) ∷ []) ≡ keys l = e in ground (arith, one, h)

load-expected_example : load plain_viper os "config.yaml" ≡ expected plain_viper os "config.yaml"
load-expected_example = load-expected plain_viper os "config.yaml" os-HasPlain

-- The variable, the file and the defaults all count.
abbrev few_workers : Config
few_workers = record defaults { redis_addr = "redis:6379"; concurrency = 4 }

load_config_file : load plain_viper os "config.yaml" ≡ inr few_workers
unfolding load defaults underscores
load_config_file = refl

abbrev flags : Flags
flags = record {
  queue = "low";
  job_type = "FailingJob";
  payload = "{}";
  delay = pos 0;
  max_attempts = pos 2;
  count = pos 2;
}

abbrev tick : Char
tick = "t"

abbrev ticks : ℕ → String
ticks zero = ""
ticks (suc n) = String.◌∷◌ tick (ticks n)

abbrev size : String → ℕ
size String.[] = 0
size (String.◌∷◌ c s) = suc (size s)

size-ticks : (n : ℕ) → size (ticks n) ≡ n
size-ticks zero = refl
size-ticks (suc n) = ap suc (size-ticks n)

abbrev inputs : ℕ → Inputs
inputs i = record {
  payload = some "{}";
  uuid = ticks i;
  created = 1000;
  process = 1001;
  delayed_from = 1002;
  sent = 1003;
}

inputs-Suits : Suits plain server flags inputs "{}"
inputs-Suits = record {
  encodes = λ i. refl;
  distinct = λ i j h e. omega (arith, ap size e, size-ticks i, size-ticks j, h);
  marshals = λ i job wanted. (job, refl);
}

abbrev any_text : String → Bool
any_text s = true

enqueue_main-Copies_example : Copies plain server flags inputs "{}" nowhere 0 2 (
    enqueue_main
      (redis_broker plain server)
      flags
      inputs
      any_text
      (record { db = []; faults = lost_reply ∷ [] }))
enqueue_main-Copies_example =
    enqueue_main-Copies plain server flags inputs "{}" inputs-Suits any_text 2 nowhere
      (record { db = []; faults = lost_reply ∷ [] }) empty-Tracks (λ k. refl) refl (inl refl)

abbrev few : Server (Unit {0})
few = build_server few_workers

few-starts : server_main plain_viper os "config.yaml" ≡ runs few
unfolding server_main
few-starts = rw (server_main, load_config_file) refl
