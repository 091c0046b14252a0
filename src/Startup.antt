-- ===== src/Startup.antt =====
-- cmd/adapter/main.go and cmd/validate-templates/main.go: how the processes start. The listeners, the
-- file system and the SDK are outside; `lower` is `strings.ToLower`.
pub mod Agreed
use integration_nfeio.Base.{
  ℕ, String, ◌<>◌, Bool, ◌||◌, Option, none, some, List, [], ◌∷◌, eq_str, trim_space, if◌then◌else◌,
}
use integration_nfeio.Floats.{Floats}
use integration_nfeio.Config.{Config, Loaded, missing_api_key, bad_webhook_secret, loaded, load}
use integration_nfeio.Http.{Result, ok, err}
use integration_nfeio.Template.{Templates, Entry, load_templates}
use integration_nfeio.Municipalities.{Cache}
use integration_nfeio.Publish.{Dispatcher, dispatcher_from_env}
use integration_nfeio.Reconcile.Wired.{Emitter, new_emitter_from_env}

-- The listener of the RPC transport, with its address or its broker.
pub data Listener : Type 0 where
  http_listener : String → Listener
  amqp_listener : String → Listener

-- A process that runs.
pub record Process (F : Type 0) : Type 0 where
  pub cfg : Config
  pub templates : Templates F
  pub cache : Cache
  pub emitter : Emitter
  pub listener : Listener
  pub health_address : String
  pub webhook_address : String
  pub publisher : Option Dispatcher

-- How a start ends: with the version printed, with a fatal log entry, or with a running process.
pub data Start (F : Type 0) : Type 0 where
  version_printed : Start F
  fatal : String → Start F
  running : Process F → Start F

-- The directories: whether a path can be examined, what it holds, and the templates of the binary.
pub record Files {F : Type 0} (floats : Floats F) : Type 0 where
  pub exists : String → Bool
  pub entries : String → Option (List (Entry floats))
  pub embedded : Option (List (Entry floats))

module _ (getenv : String → String) where
  -- `envOrDefault`.
  unfoldable pub env_or_default : String → String → String
  env_or_default name fallback =
      let v = trim_space (getenv name) in if eq_str v "" then fallback else v

  -- The switch on the transport; `none` is fatal.
  unfoldable pub listener_of : String → Option Listener
  unfolding env_or_default
  listener_of transport =
      let broker = trim_space (getenv "BROKER_URL") in
      if eq_str transport "" || eq_str transport "http" || eq_str transport "http_json"
      then some (http_listener (":" <> env_or_default "RPC_PORT" "8081"))
      else if eq_str transport "amqp" || eq_str transport "rabbitmq"
      then if eq_str broker "" then none else some (amqp_listener broker)
      else none

  module _ {F : Type 0} (floats : Floats F) (files : Files floats) (lower : String → String) where
    -- The templates of the directory, where there is one, or those of the binary.
    unfoldable pub chosen_templates : Config → Result (Templates F)
    chosen_templates cfg =
        load_templates floats (
          if files.exists cfg.templates_dir
          then files.entries cfg.templates_dir
          else files.embedded)

    abbrev process : Config → Templates F → Listener → Process F
    process cfg templates listener = record {
      cfg = cfg;
      templates = templates;
      cache = record { ttl = 3600000; entries = [] };
      emitter = new_emitter_from_env getenv;
      listener = listener;
      health_address = ":" <> cfg.health_port;
      webhook_address = ":" <> cfg.webhook_port;
      publisher =
          dispatcher_from_env getenv
            (env_or_default "RABBITMQ_TOPOLOGY_INSTANCE" "rabbitmq-topology-default");
    }

    abbrev pub listening : Config → Templates F → Option Listener → Start F
    listening cfg templates none = fatal "unsupported YGGDRASIL_TRANSPORT, or no BROKER_URL"
    listening cfg templates (some listener) = running (process cfg templates listener)

    abbrev pub with_templates : Config → Result (Templates F) → Start F
    with_templates cfg (err e) = fatal "template load"
    with_templates cfg (ok templates) =
        listening cfg templates (listener_of (lower (trim_space (getenv "YGGDRASIL_TRANSPORT"))))

    abbrev pub with_config : Loaded → Start F
    with_config missing_api_key = fatal "config load"
    with_config bad_webhook_secret = fatal "config load"
    with_config (loaded cfg) = with_templates cfg (chosen_templates cfg)

    abbrev asks_version : List String → Bool
    asks_version (program ∷ first ∷ rest) = eq_str first "--version"
    asks_version _ = Bool.false

    -- `main` of cmd/adapter, up to the servers.
    unfoldable pub start : List String → Start F
    unfolding listener_of chosen_templates env_or_default
    start args = if asks_version args then version_printed else with_config (load getenv)

abbrev exit_code : {F : Type 0} → Result (Templates F) → ℕ
exit_code (ok templates) = 0
exit_code (err e) = 1

-- `main` of cmd/validate-templates: its exit code.
unfoldable pub validate_templates :
    {F : Type 0} (floats : Floats F) → Files floats → List String → ℕ
validate_templates floats files (program ∷ dir ∷ rest) =
    exit_code (load_templates floats (files.entries dir))
validate_templates floats files _ = 2
