-- ===== src/Config.antt =====
-- providers/nfeio/config/config.go: the adapter's settings, read from the environment.
pub mod Secret
use integration_nfeio.Base.{
  String, Bool, ◌&&◌, ◌||◌, not, leb, ltb, byte_len, trim_space, eq_str, if◌then◌else◌,
}

pub record Config : Type 0 where
  pub api_key : String
  pub webhook_secret : String
  pub company_id : String
  pub base_url : String
  pub webhook_port : String
  pub health_port : String
  pub templates_dir : String

pub data Loaded : Type 0 where
  missing_api_key bad_webhook_secret : Loaded
  loaded : Config → Loaded

module _ (getenv : String → String) where
  unfoldable pub env_or : String → String → String
  env_or k fallback = let v = trim_space (getenv k) in if eq_str v "" then fallback else v

  abbrev settings : Config
  unfolding env_or
  settings = record {
    api_key = trim_space (getenv "NFEIO_API_KEY");
    webhook_secret = getenv "NFEIO_WEBHOOK_SECRET";
    company_id = trim_space (getenv "NFEIO_COMPANY_ID");
    base_url = env_or "NFEIO_BASE_URL" "https://api.nfe.io";
    webhook_port = env_or "WEBHOOK_PORT" "8082";
    health_port = env_or "HEALTHCHECK_PORT" "8080";
    templates_dir = env_or "TEMPLATES_DIR" "manifest/templates";
  }

  unfoldable pub load : Loaded
  unfolding settings env_or
  load =
      let cfg = settings in
      if eq_str cfg.api_key ""
      then missing_api_key
      else if ltb (byte_len cfg.webhook_secret) 32
          || ltb 64 (byte_len cfg.webhook_secret)
          || not (eq_str (trim_space cfg.webhook_secret) cfg.webhook_secret)
      then bad_webhook_secret
      else loaded cfg

-- `validRuntimeWebhookSecret` of webhook_subscription.go.
unfoldable pub valid_runtime_webhook_secret : String → Bool
valid_runtime_webhook_secret value =
    leb 32 (byte_len value) && leb (byte_len value) 64 && eq_str (trim_space value) value
