-- ===== src/Client.antt =====
-- providers/nfeio/adapter/client.go and bearer.go: one NFe.io call, its retries and its metrics.
pub mod Answers
pub mod Sending
pub mod Sends
pub mod Reads
pub mod Ends
pub mod Attempts
pub mod Errors
use integration_nfeio.Base.{
  ℕ, zero, suc, ◌*◌, ◌%◌, ◌^◌, ◌≤◌, String, ◌<>◌, Bool, true, false, ◌&&◌, ◌||◌, not, Option, none,
  some, List, [], ◌∷◌, ◌++◌, ℤ, pos, negsuc, atoi, gt_zero, eq_int, show_int, leb, ltb, ◌==◌,
  eq_str, if◌then◌else◌,
}
use integration_nfeio.Json.{
  Json, Bytes, Decoder, Decoded, decode_struct, store, keep, read_string, read_int, unmarshal_doc,
}
use integration_nfeio.Config.{Config}
use integration_nfeio.Http.{
  Method, Request, Response, NetError, Reply, failed, answered, Net, ApiError, Error, api, http_do,
  ctx_done, new_request, decode, unreachable, Result, ok, err, World, M,
}

-- `injectAuth` on a request's headers.
abbrev pub inject_auth : String → List (String × String) → List (String × String)
inject_auth api_key headers =
    (if eq_str api_key "" then headers else headers ++ (("Authorization", api_key) ∷ []))
    ++ (("Accept", "application/json") ∷ [])

abbrev content_type : Option Json → List (String × String)
content_type none = []
content_type (some _) = ("Content-Type", "application/json") ∷ []

abbrev pub make_request : Config → Method → String → Option Json → Request
make_request cfg method path body = record {
  method = method;
  url = cfg.base_url <> path;
  headers = inject_auth cfg.api_key (content_type body);
  body = body;
}

-- `opFromContext` where no operation was put into the context.
abbrev pub unlabelled : String
unlabelled = "unknown"

-- `IsTerminal`.
unfoldable pub is_terminal : ApiError → Bool
is_terminal e =
    eq_int e.status (pos 400)
    || eq_int e.status (pos 404)
    || eq_int e.status (pos 422)
    || eq_int e.status (pos 409)

-- The fields of `NfeIoAPIError` that its JSON tags name.
abbrev api_error_fields : List String
api_error_fields = "status" ∷ "name" ∷ "message" ∷ []

abbrev set_api_error : String → Json → ApiError → Decoded ApiError
set_api_error n v e =
    if eq_str n "status"
    then store (read_int v) (λ x. record e { status = x }) e
    else if eq_str n "name"
    then store (read_string v) (λ x. record e { name = x }) e
    else store (read_string v) (λ x. record e { message = x }) e

abbrev with_default_message : String → ApiError → ApiError
with_default_message text e = if eq_str e.message "" then record e { message = text } else e

-- The error of a response that is not 2xx: the body is decoded over the status that was received.
unfoldable pub api_error_of : Response → ApiError
unfolding decode_struct
api_error_of r =
    with_default_message r.body.text
      (unmarshal_doc (decode_struct api_error_fields set_api_error) r.body.doc
        (record { status = pos r.status; name = ""; message = ""; raw_body = r.body })).value

-- What `doOnce` returns: the result, the wait before a retry in nanoseconds, and whether to retry.
pub record Attempt (A : Type 0) : Type 0 where
  pub result : Result A
  pub retry_after : ℕ
  pub transient : Bool

abbrev pub final : {A : Type 0} → Result A → Attempt A
final r = record { result = r; retry_after = 0; transient = false }

-- The `out` argument: nil, or a target with its decoder.
pub data Target (A : Type 0) : Type 0 where
  discard : A → Target A
  into : Decoder A → A → Target A

abbrev decoded_result : {A : Type 0} → Decoded A → Result A
decoded_result d = if d.failed then err decode else ok d.value

-- The 2xx branch of `doOnce`.
unfoldable pub read_body : {A : Type 0} → Target A → Bytes → Result A
read_body (discard a) b = ok a
read_body (into dec a) b =
    if eq_str b.text "" then ok a else decoded_result (unmarshal_doc dec b.doc a)

-- The rate limit gauge is set only by a header that is a number.
abbrev gauge : Option ℤ → Option ℤ → Option ℤ
gauge old none = old
gauge old (some n) = some n

abbrev rate_limit : String → Option ℤ → Option ℤ
rate_limit remaining old = if eq_str remaining "" then old else gauge old (atoi remaining)

abbrev status_label : Error → String
status_label (api e) = show_int e.status
status_label _ = "network"

-- The requests that 2xx, 429 and 5xx answers are told apart by.
abbrev pub is_success : ℕ → Bool
is_success status = leb 200 status && ltb status 300

abbrev pub is_transient_status : ℕ → Bool
is_transient_status status = status == 429 || leb 500 status

abbrev pub max_attempts : ℕ
max_attempts = 3

module _ {S : Type 0} (net : Net S) where
  abbrev positive_date : Option ℕ → ℕ
  positive_date none = 2000000000
  positive_date (some d) = if ltb 0 d then d else 2000000000

  -- So many seconds as a `time.Duration`: a 64-bit number of nanoseconds that wraps around. A negative
  -- one is a wait that ends at once.
  unfoldable pub seconds : ℕ → ℕ
  seconds n = let d = (n * 1000000000) % 2 ^ 64 in if ltb d (2 ^ 63) then d else 0

  abbrev seconds_or_date : Option ℤ → Option ℕ → ℕ
  seconds_or_date (some (pos (suc n))) date = seconds (suc n)
  seconds_or_date _ date = positive_date date

  -- `parseRetryAfter`, in nanoseconds.
  unfoldable pub parse_retry_after : String → S → ℕ
  unfolding seconds
  parse_retry_after header s =
      if eq_str header "" then 2000000000 else seconds_or_date (atoi header) (net.until header s)

  -- `doOnce` from the status line on.
  unfoldable pub classify : {A : Type 0} → Target A → Response → S → Attempt A
  unfolding read_body api_error_of parse_retry_after
  classify out r s =
      if is_success r.status
      then final (read_body out r.body)
      else if r.status == 429
      then record {
        result = err (api (api_error_of r));
        retry_after = parse_retry_after (r.header "Retry-After") s;
        transient = true;
      }
      else if leb 500 r.status
      then record {
        result = err (api (api_error_of r));
        retry_after = 2000000000;
        transient = true;
      }
      else final (err (api (api_error_of r)))

  -- `doOnce` from the round trip on.
  unfoldable pub receive :
      {A : Type 0} → Target A → Request → World S → Reply × S → Attempt A × World S
  unfolding classify
  receive out req w (failed e, s) = (
    record { result = err (http_do e); retry_after = 1000000000; transient = true },
    record w { net = s; sent = req ∷ w.sent },
  )
  receive out req w (answered r, s) = (
    classify out r s,
    record w {
      net = s;
      sent = req ∷ w.sent;
      rate_limit_remaining = rate_limit (r.header "X-RateLimit-Remaining") w.rate_limit_remaining;
    },
  )

  module _ (cfg : Config) where
    unfoldable pub do_once :
        {A : Type 0} → Method → String → Option Json → Target A → World S → Attempt A × World S
    unfolding receive
    do_once method path body out w =
        let req = make_request cfg method path body in
        let outcome = receive out req w (net.send req w.net) in
        if net.url_parses req.url then outcome else (final (err new_request), w)

    abbrev count_error : String → Error → World S → World S
    count_error op e w = record w { request_errors = (op, status_label e) ∷ w.request_errors }

    abbrev resume :
        {A : Type 0}
        → World S
        → Option NetError × S
        → (World S → Result A × World S)
        → Result A × World S
    resume w (some e, s) retry = (err (ctx_done e), record w { net = s })
    resume w (none, s) retry = retry (record w { net = s })

    -- What one round of the loop does with an attempt; `last` is `attempt == maxAttempts`.
    abbrev conclude :
        {A : Type 0}
        → String
        → Bool
        → (World S → Result A × World S)
        → Result A
        → Bool
        → ℕ
        → World S
        → Result A × World S
    conclude op last retry (ok a) transient retry_after w = (ok a, w)
    conclude op last retry (err e) transient retry_after w =
        let w' = count_error op e w in
        let again = resume w' (net.pause retry_after w'.net) retry in
        if not transient || last then (err e, w') else again

    abbrev conclude_attempt :
        {A : Type 0}
        → String
        → Bool
        → (World S → Result A × World S)
        → Attempt A × World S
        → Result A × World S
    conclude_attempt op last retry (a, w) =
        conclude op last retry a.result a.transient a.retry_after w

    -- The loop of `do`, over the attempts left.
    unfoldable pub attempts :
        {A : Type 0} → ℕ → String → Method → String → Option Json → Target A → M S A
    unfolding do_once
    attempts zero op method path body out w = (err unreachable, w)
    attempts (suc left) op method path body out w =
        conclude_attempt op (left == 0) (λ w'. attempts left op method path body out w')
          (do_once method path body out w)

    abbrev observe_duration : {A : Type 0} → String → Result A × World S → Result A × World S
    observe_duration op (r, w) = (r, record w { request_durations = op ∷ w.request_durations })

    -- `Client.do`; `op` is the operation that the context carries.
    unfoldable pub do_request :
        {A : Type 0} → String → Method → String → Option Json → Target A → M S A
    unfolding attempts
    do_request op method path body out w =
        observe_duration op (attempts max_attempts op method path body out w)
