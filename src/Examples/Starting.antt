-- ===== src/Examples/Starting.antt =====
-- A process that starts, on concrete data.
use integration_nfeio.Base.{
  ℕ, String, true, false, none, some, [], ◌∷◌, eq_str, trim_space, if◌then◌else◌, ◌≡◌, refl,
}
use integration_nfeio.Startup.{Process, http_listener, Files, start}
use integration_nfeio.Startup.Agreed.{IsRunning, start-IsRunning}
use integration_nfeio.Examples.{secret}
use integration_nfeio.Examples.Invoices.{whole, rio, directory}

abbrev environment : String → String
environment k =
    if eq_str k "NFEIO_API_KEY"
    then "key"
    else if eq_str k "NFEIO_WEBHOOK_SECRET"
    then secret
    else ""

abbrev files : Files whole
files = record { exists = λ _. true; entries = λ _. some directory; embedded = none }

abbrev started : Process ℕ
started = record {
  cfg = record {
    api_key = "key";
    webhook_secret = secret;
    company_id = "";
    base_url = "https://api.nfe.io";
    webhook_port = "8082";
    health_port = "8080";
    templates_dir = "manifest/templates";
  };
  templates = ("3304557", rio) ∷ [];
  cache = record { ttl = 3600000; entries = [] };
  emitter = integration_nfeio.Reconcile.Wired.noop_emitter;
  listener = http_listener ":8081";
  health_address = ":8080";
  webhook_address = ":8082";
  publisher = none;
}

start-IsRunning_example : IsRunning environment whole files (λ s. s) started
unfolding start integration_nfeio.Config.load trim_space integration_nfeio.Base.byte_len
    integration_nfeio.Template.load_templates integration_nfeio.Base.has_suffix
    integration_nfeio.Reconcile.Wired.new_emitter_from_env
    integration_nfeio.Publish.dispatcher_from_env
start-IsRunning_example =
    start-IsRunning environment whole files (λ s. s) ("adapter" ∷ []) {p = started} refl
