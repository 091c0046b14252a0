-- ===== src/Publish.antt =====
-- providers/nfeio/adapter/publish_dispatch.go: the publisher behind the webhook receiver.
pub mod Sent
use integration_nfeio.Base.{
  ℕ, String, ◌<>◌, Bool, true, false, ◌||◌, not, Option, none, some, List, [], ◌∷◌, ◌++◌, code,
  ◌==◌, leb, eq_str, trim_space, if◌then◌else◌,
}
use integration_nfeio.Json.{Json, str, obj, field, end}
use integration_nfeio.Http.{post_method, Request, Response, Reply, failed, answered, Net}

-- `PublishDispatcher`.
pub record Dispatcher : Type 0 where
  pub core_url : String
  pub instance_ref : String
  pub token : String

-- `strings.TrimRight` of slashes.
unfoldable pub trim_slashes : String → String
trim_slashes String.[] = ""
trim_slashes (String.◌∷◌ c s) =
    let rest = trim_slashes s in
    if eq_str rest "" then if code c == b'/' then "" else String.◌∷◌ c "" else String.◌∷◌ c rest

-- `PublishDispatcherFromEnv`; `none` is disabled.
unfoldable pub dispatcher_from_env : (String → String) → String → Option Dispatcher
unfolding trim_slashes
dispatcher_from_env getenv instance_ref =
    let core_url = trim_slashes (trim_space (getenv "YGGDRASIL_CORE_BASE_URL")) in
    let token = trim_space (getenv "YGGDRASIL_WORKFLOW_RUN_TOKEN") in
    if eq_str core_url "" || eq_str token ""
    then none
    else some (record { core_url = core_url; instance_ref = instance_ref; token = token })

abbrev authorization : String → List (String × String)
authorization token =
    if not (eq_str token "") then ("Authorization", "Bearer " <> token) ∷ [] else []

-- The request of `PublishMessage`.
unfoldable pub publish_request : Dispatcher → String → Json → Request
publish_request d queue payload = record {
  method = post_method;
  url = d.core_url <> "/api/v1/capabilities/invoke";
  headers = authorization d.token ++ (("Content-Type", "application/json") ∷ []);
  body = some (
      obj (
        field "capability" (str "publish_message") (
          field "instance_ref" (str d.instance_ref) (
            field "input"
              (obj (
                field "vhost" (str "/") (
                  field "exchange" (str "") (
                    field "routing_key" (str queue)
                      (field "payload" payload (field "payload_kind" (str "json") end))))))
              end))));
}

abbrev published : {S : Type 0} → Reply × S → Bool × S
published (failed e, s) = (false, s)
published (answered r, s) = (not (leb 300 r.status), s)

-- `PublishMessage`: whether it returns nil. A body that is no JSON cannot be put into the envelope.
unfoldable pub publish_message :
    {S : Type 0} → Net S → Dispatcher → String → Option Json → S → Bool × S
unfolding publish_request
publish_message net d queue none s = (false, s)
publish_message net d queue (some payload) s =
    let outcome = published (net.send (publish_request d queue payload) s) in
    if net.url_parses (publish_request d queue payload).url then outcome else (false, s)
