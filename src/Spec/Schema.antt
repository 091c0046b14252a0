-- ===== src/Spec/Schema.antt =====
-- The credential and instance schemas of `Describe` in providers/nfeio/adapter/spec.go.
use integration_nfeio.Base.{String, true, false, none, some, List, [], ◌∷◌}
use integration_nfeio.Json.{str}
use integration_nfeio.Family.{SchemaProperty, SchemaSpec}

-- A text in the two locales.
abbrev in_both : String → String → List (String × String)
in_both pt en = ("pt-BR", pt) ∷ ("en-US", en) ∷ []

abbrev blank_property : SchemaProperty
blank_property = record {
  type_name = "string";
  description = "";
  secret = false;
  enum = [];
  default = none;
  label = "";
  label_locale = [];
  placeholder = "";
  placeholder_locale = [];
  description_locale = [];
  group = "";
  group_locale = [];
  order = 0;
  sensitive = false;
  depends_on = none;
  format = "";
}

abbrev api_key_property : SchemaProperty
api_key_property = record blank_property {
  label = "NFe.io API key";
  label_locale = in_both "Chave da API NFe.io" "NFe.io API key";
  placeholder = "Cole a API key gerada no painel NFe.io";
  placeholder_locale =
      in_both "Cole a API key gerada no painel NFe.io"
        "Paste the API key generated in the NFe.io dashboard";
  description =
      "API key gerada em NFe.io → Configurações → API. Usada para todas as chamadas REST autenticadas.";
  description_locale =
      in_both "Encontre em NFe.io → Configurações → API. Necessária para autenticar chamadas REST."
        "Find in NFe.io → Settings → API. Used to authenticate REST calls.";
  group = "NFe.io credentials";
  group_locale = in_both "Credenciais NFe.io" "NFe.io credentials";
  order = 1;
  sensitive = true;
  secret = true;
}

abbrev webhook_secret_property : SchemaProperty
webhook_secret_property = record blank_property {
  label = "Webhook HMAC secret";
  label_locale = in_both "Segredo HMAC do webhook" "Webhook HMAC secret";
  placeholder = "Segredo configurado no webhook NFe.io";
  placeholder_locale =
      in_both "Segredo configurado no webhook NFe.io" "Secret configured on the NFe.io webhook";
  description =
      "Segredo HMAC usado para validar webhooks recebidos da NFe.io. Configurado em NFe.io → Webhooks.";
  description_locale =
      in_both
        "Segredo HMAC usado para validar webhooks recebidos. Configurado em NFe.io → Webhooks."
        "HMAC secret used to verify inbound webhooks. Set in NFe.io → Webhooks.";
  group = "NFe.io credentials";
  group_locale = in_both "Credenciais NFe.io" "NFe.io credentials";
  order = 2;
  sensitive = true;
  secret = true;
}

abbrev environment_property : SchemaProperty
environment_property = record blank_property {
  label = "NFe.io environment";
  label_locale = in_both "Ambiente NFe.io" "NFe.io environment";
  description = "Ambiente alvo da API NFe.io. Use sandbox para homologação.";
  description_locale =
      in_both "Ambiente alvo da API. Use sandbox para homologação."
        "Target environment. Use sandbox for staging.";
  group = "Runtime configuration";
  group_locale = in_both "Configuração de runtime" "Runtime configuration";
  order = 1;
  enum = str "production" ∷ str "sandbox" ∷ [];
  default = some (str "production");
}

unfoldable pub credential_schema : SchemaSpec
credential_schema = record {
  mode = "inline";
  required = "nfeio_api_key" ∷ "nfeio_webhook_secret" ∷ [];
  properties =
      ("nfeio_api_key", api_key_property) ∷ ("nfeio_webhook_secret", webhook_secret_property) ∷ [];
}

unfoldable pub instance_schema : SchemaSpec
instance_schema = record {
  mode = "inline";
  required = [];
  properties = ("environment", environment_property) ∷ [];
}
