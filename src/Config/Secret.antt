-- ===== src/Config/Secret.antt =====
-- The key and the secret of a configuration that loads.
use integration_nfeio.Base.{String, ◌≡◌, ◌≢◌, true, arith, eq_iff}
use integration_nfeio.Config.{Config, loaded, load, valid_runtime_webhook_secret}

-- Whenever `Load` succeeds, the API key is not empty and the webhook secret passes the check that
-- the webhook server and the security migration make at run time.
pub load-IsUsable :
    (getenv : String → String) {cfg : Config}
    → load getenv ≡ loaded cfg
    → (cfg.api_key ≢ "") × (valid_runtime_webhook_secret cfg.webhook_secret ≡ true)
unfolding load valid_runtime_webhook_secret
load-IsUsable getenv {cfg} h = ground (arith, eq_iff cfg.api_key "")
