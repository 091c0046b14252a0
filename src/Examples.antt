-- ===== src/Examples.antt =====
-- Runs of the development on concrete data: a scripted provider, and each theorem at an input.
mod Calls
mod Callbacks
mod Webhooks
mod Invoices
mod Batches
mod Envelopes
mod Publishing
mod Routing
mod Histories
mod Starting
use integration_nfeio.Base.{ℕ, String, true, Option, none, some, List, [], ◌∷◌, pos}
use integration_nfeio.Json.{Json, Bytes}
use integration_nfeio.Config.{Config}
use integration_nfeio.Http.{Response, canceled, Reply, failed, answered, Net, World}

-- A provider that gives its replies in turn, and waits that are never cut short.
abbrev pub scripted : Net (List Reply)
scripted = record {
  url_parses = λ _. true;
  send = λ _ replies. next replies;
  pause = λ _ replies. (none, replies);
  until = λ _ _. none;
}
  where
    next : List Reply → Reply × List Reply
    next [] = (failed canceled, [])
    next (r ∷ rs) = (r, rs)

abbrev pub reply : ℕ → String → Option Json → Reply
reply status text doc =
    answered
      (record { status = status; header = λ _. ""; body = record { text = text; doc = doc } })

abbrev pub secret : String
secret = "0123456789abcdef0123456789abcdef"

abbrev pub settings : Config
settings = record {
  api_key = "key";
  webhook_secret = secret;
  company_id = "c1";
  base_url = "https://api.nfe.io";
  webhook_port = "8082";
  health_port = "8080";
  templates_dir = "manifest/templates";
}

abbrev pub at_start : List Reply → World (List Reply)
at_start replies = record {
  net = replies;
  sent = [];
  request_errors = [];
  rate_limit_remaining = none;
  request_durations = [];
}
