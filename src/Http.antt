-- ===== src/Http.antt =====
-- Requests, replies and errors of the NFe.io client, and the world that a call runs in. The network,
-- NFe.io itself and the clock are the parameter `Net`.
pub mod Yields
use integration_nfeio.Base.{ℕ, String, Bool, Option, List, ℤ}
use integration_nfeio.Json.{Json, Bytes}

-- `Delete` is a method, and not a map operation.
pub data Method : Type 0 where
  get_method post_method put_method delete_method : Method

pub record Request : Type 0 where
  pub method : Method
  pub url : String
  pub headers : List (String × String)
  pub body : Option Json

-- `header` is `resp.Header.Get`: the first value, "" where there is none.
pub record Response : Type 0 where
  pub status : ℕ
  pub header : String → String
  pub body : Bytes

-- Why a round trip or a wait broke off.
pub data NetError : Type 0 where
  canceled deadline_exceeded : NetError
  broken : String → NetError

pub data Reply : Type 0 where
  failed : NetError → Reply
  answered : Response → Reply

-- The code outside the repository that `Client.do` calls: `url_parses` is the URL check of
-- `http.NewRequestWithContext`, `send` is `httpClient.Do`, `pause` is the select on `ctx.Done()`
-- and `time.After` of so many nanoseconds, and `until` gives the nanoseconds from now to an HTTP
-- date, `none` where the text is no date or the date is not ahead.
pub record Net (S : Type 0) : Type 0 where
  pub url_parses : String → Bool
  pub send : Request → S → Reply × S
  pub pause : ℕ → S → Option NetError × S
  pub until : String → S → Option ℕ

-- `NfeIoAPIError`.
pub record ApiError : Type 0 where
  pub status : ℤ
  pub name : String
  pub message : String
  pub raw_body : Bytes

-- An error value, by what callers can tell apart in it.
pub data Error : Type 0 where
  api : ApiError → Error
  http_do : NetError → Error
  ctx_done : NetError → Error
  new_request decode unreachable : Error
  message : String → Error
  provider_status : String → ℤ → Error
  cancellation_pending : String → String → String → Error

pub data Result {ℓ} (A : Type ℓ) : Type ℓ where
  ok : A → Result A
  err : Error → Result A

-- The network's state with what a call leaves behind: the requests sent, the latest first, and the
-- metrics.
pub record World (S : Type 0) : Type 0 where
  pub net : S
  pub sent : List Request
  pub request_errors : List (String × String)
  pub rate_limit_remaining : Option ℤ
  pub request_durations : List String

-- A call that may fail, over the world.
abbrev pub M : Type 0 → Type 0 → Type 0
M S A = World S → Result A × World S

abbrev pub after : {S A B : Type 0} → (A → M S B) → Result A × World S → Result B × World S
after k (ok a, w) = k a w
after k (err e, w) = (err e, w)

infixl 5 ◌>>=◌ ◌>>◌
abbrev pub ◌>>=◌ : {S A B : Type 0} → M S A → (A → M S B) → M S B
◌>>=◌ m k w = after k (m w)

abbrev pub ◌>>◌ : {S B : Type 0} → M S (Unit {0}) → M S B → M S B
◌>>◌ m k w = after (λ _. k) (m w)

abbrev pub return : {S A : Type 0} → A → M S A
return a w = (ok a, w)

abbrev pub fail : {S A : Type 0} → Error → M S A
fail e w = (err e, w)
