-- ===== src/Config.antt =====
-- config/config.go: what the commands are configured with, and how Load reads it through viper.
pub mod Settings
pub mod Loading
use mini_sidekiq.Prelude.{
  ℕ, ◌*◌, ◌^◌, String, List, [], ◌∷◌, Option, none, some, ◌⊎◌, inl, inr, Bool, true, false, ℤ, pos,
  ◌==◌, if◌then◌else◌,
}
use mini_sidekiq.Broker.RedisBroker.{second}
use mini_sidekiq.Config.Settings.{
  Config, Setting, text, number, weights, Viper, Os, ReadError, config_file_not_found, not_exist,
  unreadable, underscores,
}

unfoldable pub defaults : Config
defaults = record {
  redis_addr = "localhost:6379";
  dashboard_addr = ":8080";
  concurrency = 10;
  queues = ("critical", pos 3) ∷ ("default", pos 2) ∷ ("low", pos 1) ∷ [];
  poll_interval = 250 * 10 ^ 6;
  scheduler_interval = 5 * second;
}

pub data LoadError : Type 0 where
  read_config : String → LoadError
  unmarshal_config : LoadError

-- A missing file is none.
abbrev pub is_missing : ReadError → Bool
is_missing config_file_not_found = true
is_missing not_exist = true
is_missing unreadable = false

abbrev pub is_fatal : Option ReadError → Bool
is_fatal none = false
is_fatal (some e) = if is_missing e then false else true

abbrev pub or_unmarshal : Option Config → LoadError ⊎ Config
or_unmarshal none = inl unmarshal_config
or_unmarshal (some cfg) = inr cfg

module _ (v : Viper) where
  open v use {
    State, new, set_default, set_env_prefix, set_env_key_replacer, automatic_env, set_config_file,
    read_in_config, unmarshal,
  }

  abbrev pub with_defaults : Config → State
  with_defaults d =
      let s₁ = set_default "redis_addr" (text d.redis_addr) new in
      let s₂ = set_default "dashboard_addr" (text d.dashboard_addr) s₁ in
      let s₃ = set_default "concurrency" (number d.concurrency) s₂ in
      let s₄ = set_default "queues" (weights d.queues) s₃ in
      let s₅ = set_default "poll_interval" (number d.poll_interval) s₄ in
      set_default "scheduler_interval" (number d.scheduler_interval) s₅

  abbrev pub prepared : State
  prepared =
      automatic_env
        (set_env_key_replacer underscores (set_env_prefix "sidekiq" (with_defaults defaults)))

  unfoldable pub load : Os → String → LoadError ⊎ Config
  load os path =
      if path == ""
      then or_unmarshal (unmarshal os prepared)
      else let (e, s) = read_in_config os (set_config_file path prepared) in
        if is_fatal e then inl (read_config path) else or_unmarshal (unmarshal os s)
