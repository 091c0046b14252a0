-- ===== src/Startup/Agreed.antt =====
-- What holds of a process that has started.
use integration_nfeio.Base.{
  String, true, Option, none, some, List, All, eq_str, trim_space, if◌then◌else◌, ◌≡◌, ◌≢◌, eq_iff,
  refl, inl, inr, arith, Bool-cases,
}
use integration_nfeio.Floats.{Floats}
use integration_nfeio.Config.{
  Config, Loaded, missing_api_key, bad_webhook_secret, loaded, load, valid_runtime_webhook_secret,
}
use integration_nfeio.Config.Secret.{load-IsUsable}
use integration_nfeio.Http.{Result, ok, err}
use integration_nfeio.Template.{Templates}
use integration_nfeio.Template.Loaded.{IsListed, load_templates-IsListed}
use integration_nfeio.Spec.{adapter_of, describe}
use integration_nfeio.Startup.{
  Listener, http_listener, amqp_listener, Process, running, Files, listener_of, chosen_templates,
  listening, with_templates, with_config, asks_version, start,
}

-- The transport that a listener serves.
abbrev pub transport_of : Listener → String
transport_of (http_listener address) = "http_json"
transport_of (amqp_listener broker) = "rabbitmq"

module _ (getenv : String → String) {F : Type 0} (floats : Floats F) (files : Files floats)
    (lower : String → String) where
  pub record IsRunning (p : Process F) : Type 0 where
    pub configured : p.cfg.api_key ≢ ""
    pub verifiable : valid_runtime_webhook_secret p.cfg.webhook_secret ≡ true
    pub listed : All (IsListed floats) p.templates
    pub agreed :
        (describe lower (getenv "YGGDRASIL_TRANSPORT")).adapter.transport ≡ transport_of p.listener

  listener_of-transport :
      (transport : String) {l : Listener}
      → listener_of getenv transport ≡ some l
      → (adapter_of (if eq_str transport "" then "http_json" else transport)).transport
        ≡ transport_of l
  unfolding listener_of adapter_of
  listener_of-transport transport {l} h = elim (Bool-cases (eq_str transport "")) [
    | inl empty ↦
        let e : transport ≡ "" = (eq_iff transport "").0 empty in
        let found : listener_of getenv "" ≡ some l = rw e at h in rw e (ground arith)
    | inr given ↦ elim (Bool-cases (eq_str transport "amqp")) [
      | inl amqp ↦
          let e : transport ≡ "amqp" = (eq_iff transport "amqp").0 amqp in
          let found : listener_of getenv "amqp" ≡ some l = rw e at h in rw e (ground arith)
      | inr no_amqp ↦ elim (Bool-cases (eq_str transport "rabbitmq")) [
        | inl rabbit ↦
            let e : transport ≡ "rabbitmq" = (eq_iff transport "rabbitmq").0 rabbit in
            let found : listener_of getenv "rabbitmq" ≡ some l = rw e at h in rw e (ground arith)
        | inr no_rabbit ↦ rw (given, no_amqp, no_rabbit) (ground arith)
      ]
    ]
  ]

  listening-IsRunning :
      (cfg : Config) (templates : Templates F) (o : Option Listener) {p : Process F}
      → listening getenv floats files lower cfg templates o ≡ running p
      → (l : Listener) × (o ≡ some l) × (p.cfg ≡ cfg) × (p.templates ≡ templates) × (p.listener ≡ l)
  listening-IsRunning cfg templates none h = absurd (cc)
  listening-IsRunning cfg templates (some l) {p} h = (l, refl, cc, cc, cc)

  with_templates-IsRunning :
      (cfg : Config) {p : Process F}
      → (r : Result (Templates F)) → with_templates getenv floats files lower cfg r ≡ running p
      → (r ≡ ok p.templates)
        × (p.cfg ≡ cfg)
        × (listener_of getenv (lower (trim_space (getenv "YGGDRASIL_TRANSPORT"))) ≡ some p.listener)
  with_templates-IsRunning cfg (err e) h = absurd (cc)
  with_templates-IsRunning cfg {p} (ok templates) h =
      let (l, found, same, given, listener) =
        listening-IsRunning cfg templates
          (listener_of getenv (lower (trim_space (getenv "YGGDRASIL_TRANSPORT")))) {p = p} h in
      (cc, same, cc)

  with_config-IsRunning :
      (o : Loaded) {p : Process F}
      → load getenv ≡ o
      → with_config getenv floats files lower o ≡ running p
      → IsRunning p
  unfolding chosen_templates describe
  with_config-IsRunning missing_api_key e h = absurd (cc)
  with_config-IsRunning bad_webhook_secret e h = absurd (cc)
  with_config-IsRunning (loaded cfg) {p} e h =
      let (found, same, listener) =
        with_templates-IsRunning cfg {p = p} (chosen_templates getenv floats files lower cfg) h in
      let (key, secret) = load-IsUsable getenv {cfg = cfg} e in
      record {
        configured = rw same key;
        verifiable = rw same secret;
        listed = load_templates-IsListed floats _ {out = p.templates} found;
        agreed = listener_of-transport _ {l = p.listener} listener;
      }

  -- A process that starts, with whatever arguments, environment and files, has an API key and a
  -- webhook secret that its own webhook check takes, each of its templates is valid and stands under
  -- its own code, and Describe names the transport that it listens on.
  pub start-IsRunning :
      (args : List String) {p : Process F}
      → start getenv floats files lower args ≡ running p
      → IsRunning p
  unfolding start
  start-IsRunning args {p} h = elim (Bool-cases (asks_version getenv floats files lower args)) [
    | inl asked ↦ absurd (ground arith)
    | inr normal ↦ with_config-IsRunning (load getenv) {p = p} refl (rw normal at h)
  ]
