-- ===== src/Config/Loading.antt =====
-- config/config.go: Load, against a description by keys.
use mini_sidekiq.Prelude.{
  String, ◌≡◌, refl, ap, sym, subst, eq_iff, ◌∙◌, List, [], ◌∷◌, Option, ◌⊎◌, inl, inr, true, false,
  ◌==◌, if◌then◌else◌, Bool-cases,
}
use mini_sidekiq.Config.Settings.{
  Config, Setting, text, number, weights, Os, File, absent, broken, keys, View, Viper, fields,
  find_key, from_env, IsPlain, first_of, underscores,
}
use mini_sidekiq.Config.{LoadError, read_config, or_unmarshal, defaults, prepared, load}

-- The defaults by key.
abbrev pub default_keys : List (String × Setting)
default_keys =
    ("redis_addr", text defaults.redis_addr)
    ∷ ("dashboard_addr", text defaults.dashboard_addr)
    ∷ ("concurrency", number defaults.concurrency)
    ∷ ("queues", weights defaults.queues)
    ∷ ("poll_interval", number defaults.poll_interval)
    ∷ ("scheduler_interval", number defaults.scheduler_interval)
    ∷ []

-- The keys in the file, if it is there and can be read.
abbrev pub file_keys : Os → String → LoadError ⊎ List (String × Setting)
file_keys os path =
    if path == ""
    then inr []
    else elim (os.file path) [ absent ↦ inr [] | broken ↦ inl (read_config path) | keys l ↦ inr l ]

module _ (v : Viper) where
  open v use {State, view, read_in_config, set_config_file, unmarshal, variable, decoder, nested}

  abbrev pub layered : Os → List (String × Setting) → String → Option Setting
  layered os file key =
      first_of (from_env (os.env (variable "sidekiq" (underscores key))))
        (first_of (find_key key file) (find_key key default_keys))

  -- What the instance has been told in the end.
  abbrev pub told : List (String × Setting) → String → View
  told file path = record {
    default =
        ("scheduler_interval", number defaults.scheduler_interval)
        ∷ ("poll_interval", number defaults.poll_interval)
        ∷ ("queues", weights defaults.queues)
        ∷ ("concurrency", number defaults.concurrency)
        ∷ ("dashboard_addr", text defaults.dashboard_addr)
        ∷ ("redis_addr", text defaults.redis_addr)
        ∷ [];
    file = file;
    prefix = "sidekiq";
    replacer = underscores;
    automatic = true;
    path = path;
  }

  unfoldable pub expected : Os → String → LoadError ⊎ Config
  expected os path = elim (file_keys os path) [
    | inl e ↦ inl e
    | inr file ↦ or_unmarshal (fields decoder (nested os (told file path)) (layered os file))
  ]

  view-prepared : view (prepared v) ≡ told [] ""
  view-prepared =
      rw
        (
          v.view-automatic_env, v.view-set_env_key_replacer, v.view-set_env_prefix,
          v.view-set_default, v.view-set_default, v.view-set_default, v.view-set_default,
          v.view-set_default, v.view-set_default, v.view-new,
        )
        refl

  view-pointed : (path : String) → view (set_config_file path (prepared v)) ≡ told [] path
  view-pointed path = v.view-set_config_file path (prepared v) ∙ rw view-prepared refl

  -- What an instance that has been told all this unmarshals.
  unmarshal-told :
      (os : Os) (s : State) (file : List (String × Setting)) (path : String)
      → IsPlain file
      → view s ≡ told file path
      → unmarshal os s ≡ fields decoder (nested os (told file path)) (layered os file)
  unmarshal-told os s file path plain e =
      v.unmarshal-fields os s (subst IsPlain (sym (ap (λ x. x.file) e)) plain) ∙ rw e refl

  -- A file that is there has plain values.
  abbrev pub HasPlain : Os → String → Type 0
  HasPlain os path = (l : List (String × Setting)) → os.file path ≡ keys l → IsPlain l

  none-IsPlain : IsPlain []
  none-IsPlain k queues ne e = cc

  load-file :
      (os : Os) (path : String) (at_path : File)
      → (path == "") ≡ false
      → os.file path ≡ at_path
      → HasPlain os path
      → load v os path ≡ expected os path
  unfolding load expected
  load-file os path absent named e plain =
      let s = set_config_file path (prepared v) in
      let w = view-pointed path in
      rw
        (
          expected,
          named,
          v.read-absent os s (ap (λ x. os.file x.path) w ∙ e),
          e,
          unmarshal-told os s [] path none-IsPlain w,
        )
        refl
  load-file os path broken named e plain =
      let s = set_config_file path (prepared v) in
      let w = view-pointed path in
      rw (expected, named, v.read-broken os s (ap (λ x. os.file x.path) w ∙ e), e) refl
  load-file os path (keys l) named e plain =
      let s = set_config_file path (prepared v) in
      let w = view-pointed path in
      let (ok, w') = v.read-keys os s l (ap (λ x. os.file x.path) w ∙ e) in
      rw
        (
          expected,
          named,
          ok,
          e,
          unmarshal-told os (read_in_config os s).1 l path (plain l e) (w' ∙ rw w refl),
        )
        refl

  -- Load, whatever the environment is, and whatever the file is, if only the key queues is a map
  -- in it: it fails if there is a path and the file there cannot be read. Otherwise each of the
  -- five keys with plain values has the value of its variable, SIDEKIQ_ before its name, if that
  -- is not empty; else the value in the file, which may be missing; else the default; and the
  -- queues are what viper makes of environment, file and default. It fails if such a value does
  -- not suit its field.
  pub load-expected :
      (os : Os) (path : String) → HasPlain os path → load v os path ≡ expected os path
  unfolding load expected
  load-expected os path plain = elim (Bool-cases (path == "")) [
    | inl e ↦
        rw (expected, e, unmarshal-told os (prepared v) [] "" none-IsPlain view-prepared)
          (rw ((eq_iff path "").0 e) refl)
    | inr e ↦ load-file os path (os.file path) e refl plain
  ]
