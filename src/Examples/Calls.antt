-- ===== src/Examples/Calls.antt =====
-- Calls of the client, the configuration and the path escape on concrete data.
use integration_nfeio.Base.{
  AllChars, ℕ, ◌≤◌, ◌<◌, String, true, false, if◌then◌else◌, eq_str, trim_space, byte_len, none,
  some, List, [], ◌∷◌, ◌++◌, pos, ◌≡◌, ◌≢◌, refl, replicate,
}
use integration_nfeio.Json.{obj, field, end, num}
use integration_nfeio.Path.{path_segment}
use integration_nfeio.Path.Escape.{IsInSegment, path_segment-IsInSegment}
use integration_nfeio.Config.{Config}
use integration_nfeio.Http.{get_method, delete_method, Response, Reply, Net, Error, ok, err, World}
use integration_nfeio.Client.{
  make_request, Target, discard, do_request, read_body, is_success, api_error_of,
}
use integration_nfeio.Client.Answers.{Replied, do_request-eq-ok, do_request-eq-api}
use integration_nfeio.Client.Attempts.{outcome_of, do_request_final, do_request_exhausted}
use integration_nfeio.Client.Errors.{api_error_of_body_status}
use integration_nfeio.Client.Sending.{do_request-sent}
use integration_nfeio.Examples.{scripted, reply, settings, at_start, secret}

abbrev no_body : Target (Unit {0})
no_body = discard tt

abbrev flaky : World (List Reply)
flaky = at_start (reply 503 "busy" none ∷ reply 429 "slow" none ∷ reply 200 "" none ∷ [])

abbrev missing : World (List Reply)
missing = at_start (reply 500 "" none ∷ reply 404 "gone" none ∷ [])

do_request-sent_example :
    (n : ℕ) × ((do_request scripted settings "op" get_method "/v2/x" none no_body flaky).1.sent
      ≡ replicate n (make_request settings get_method "/v2/x" none) ++ [])
    × (n ≤ 3)
    × (scripted.url_parses "https://api.nfe.io/v2/x" ≡ true → 0 < n)
do_request-sent_example =
    do_request-sent scripted settings "op" get_method "/v2/x" none no_body flaky

do_request-eq-ok_example :
    (r : Response) × Replied scripted
      (make_request settings get_method "/v2/x" none)
      r
      (do_request scripted settings "op" get_method "/v2/x" none no_body flaky).1
    × (is_success r.status ≡ true)
    × (read_body no_body r.body ≡ ok tt)
unfolding do_request
do_request-eq-ok_example =
    do_request-eq-ok scripted settings "op" get_method "/v2/x" none no_body flaky {a = tt} refl

do_request-eq-api_example :
    (r : Response) × Replied scripted
      (make_request settings delete_method "/v2/x" none)
      r
      (do_request scripted settings "op" delete_method "/v2/x" none no_body missing).1
    × (is_success r.status ≡ false)
    × (record {
      status = pos 404;
      name = "";
      message = "gone";
      raw_body = record { text = "gone"; doc = none };
    }
        ≡ api_error_of r)
unfolding do_request
do_request-eq-api_example =
    do_request-eq-api scripted settings "op" delete_method "/v2/x" none no_body missing refl

do_request_final_example :
    ((do_request scripted settings "op" get_method "/v2/x" none no_body
        (at_start (reply 404 "gone" none ∷ []))).0
      ≡ outcome_of no_body
          (record { status = 404; header = λ _. ""; body = record { text = "gone"; doc = none } }))
    × ((do_request scripted settings "op" get_method "/v2/x" none no_body
          (at_start (reply 404 "gone" none ∷ []))).1.sent
        ≡ make_request settings get_method "/v2/x" none ∷ [])
do_request_final_example =
    do_request_final scripted settings "op" get_method "/v2/x" none no_body
      (at_start (reply 404 "gone" none ∷ [])) _ [] refl refl refl

-- A provider that is down for good.
abbrev down : Net ℕ
down = record {
  url_parses = λ _. true;
  send = λ _ n. (reply 503 "down" none, n);
  pause = λ d n. (none, n);
  until = λ _ _. none;
}

abbrev idle : World ℕ
idle = record {
  net = 0;
  sent = [];
  request_errors = [];
  rate_limit_remaining = none;
  request_durations = [];
}

do_request_exhausted_example :
    ((e : Error) × ((do_request down settings "op" get_method "/v2/x" none no_body idle).0 ≡ err e))
    × ((do_request down settings "op" get_method "/v2/x" none no_body idle).1.sent
        ≡ replicate 3 (make_request settings get_method "/v2/x" none) ++ [])
do_request_exhausted_example =
    do_request_exhausted down settings "op" get_method "/v2/x" none no_body refl (λ _. refl)
      (λ _ _. refl) idle

abbrev environment : String → String
environment name =
    if eq_str name "NFEIO_API_KEY"
    then " key "
    else if eq_str name "NFEIO_WEBHOOK_SECRET"
    then secret
    else ""

abbrev loaded_settings : Config
loaded_settings = record settings { company_id = "" }

path_segment-IsInSegment_example : AllChars IsInSegment (path_segment "a/b?c#d")
path_segment-IsInSegment_example = path_segment-IsInSegment "a/b?c#d"

abbrev overriding : Response
overriding = record {
  status = 500;
  header = λ _. "";
  body = record { text = "{\"status\":404}"; doc = some (obj (field "status" (num "404") end)) };
}

api_error_of_body_status_example : (api_error_of overriding).status ≡ pos 404
unfolding integration_nfeio.Base.atoi
api_error_of_body_status_example = api_error_of_body_status overriding "404" refl refl
