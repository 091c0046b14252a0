-- ===== src/Examples/Histories.antt =====
-- Sequences of callbacks and of calls on concrete data.
use integration_nfeio.Base.{
  ℕ, zero, suc, ◌+◌, ◌≤◌, ◌<◌, String, Bool, true, false, ◌||◌, Option, none, some, List, [], ◌∷◌,
  pos, eq_str, eq_refl, length, ◌≡◌, ◌≢◌, refl, ◌⊎◌, inl, inr, arith,
}
use integration_nfeio.Json.{null}
use integration_nfeio.Http.{post_method, ok, err, unreachable}
use integration_nfeio.Client.{Target, discard, do_request}
use integration_nfeio.Client.Ends.{do_request_ends}
use integration_nfeio.Path.{path_segment}
use integration_nfeio.Path.Unescape.{unescape, bytes_of_text, unescape-path_segment}
use integration_nfeio.Webhook.Server.{answer, handle}
use integration_nfeio.Webhook.Server.History.{IsEvicting, deliver, handle_later}
use integration_nfeio.Municipalities.{normalize, no_list}
use integration_nfeio.Municipalities.History.{Reached, fresh, called, IsAnswer, served-IsAnswer}
use integration_nfeio.Examples.{scripted, settings, at_start, secret}
use integration_nfeio.Examples.Callbacks.{unbounded, member, env, empty_server, callback}
use integration_nfeio.Examples.Batches.{
  clock, question, empty, quiet, cached, after_fetch, list_fetched,
}

-- Whether a key is among the first so many.
among : ℕ → String → List String → Bool
among zero k c = false
among (suc n) k [] = false
among (suc n) k (j ∷ c) = eq_str j k || among n k c

abbrev Held : ℕ → String → List String → Type 0
Held n k c = among n k c ≡ true

Held-longer : (n : ℕ) (k : String) (c : List String) → Held n k c → Held (suc n) k c
unfolding among
Held-longer zero k c h = cc
Held-longer (suc n) k [] h = cc
Held-longer (suc n) k (j ∷ c) h = ground (arith, Held-longer n k c)

Held-member : (n : ℕ) (k : String) (c : List String) → Held n k c → member k c ≡ true
unfolding among member
Held-member zero k c h = cc
Held-member (suc n) k [] h = cc
Held-member (suc n) k (j ∷ c) h = ground (arith, Held-member n k c)

unbounded-IsEvicting : IsEvicting unbounded 4096 Held
unfolding among
unbounded-IsEvicting = record {
  added = λ k c. ground (arith, eq_refl k);
  moved_by_add = λ n k j c h less. ground arith;
  moved_by_get = λ n k j c h. Held-longer n k c h;
  kept_by_miss = λ n k j c h missed. h;
  kept = Held-longer;
  found = λ n k c h less. Held-member n k c h;
}

handle_later_example :
    ((handle env secret callback
        (deliver env secret (callback ∷ []) (handle env secret callback empty_server).1)).0
      ≡ answer 200 "{\"status\":\"duplicate\"}")
    × ((handle env secret callback (
          deliver env secret
            (callback ∷ [])
            (handle env secret callback empty_server).1)).1.published
        ≡ (deliver env secret
            (callback ∷ [])
            (handle env secret callback empty_server).1).published)
unfolding handle member integration_nfeio.Webhook.Signature.verify_signature
    integration_nfeio.Config.valid_runtime_webhook_secret integration_nfeio.Base.byte_len
    integration_nfeio.Base.trim_space integration_nfeio.Webhook.Signature.single_http_header
    integration_nfeio.Base.equal_fold integration_nfeio.Base.has_char
    integration_nfeio.Base.has_prefix integration_nfeio.Webhook.Signature.hex_decode
    integration_nfeio.Base.trim_prefix integration_nfeio.Webhook.Signature.equal_bytes
    integration_nfeio.Webhook.decode_payload integration_nfeio.Webhook.queue_for
    integration_nfeio.Webhook.normalize_nfe_event
handle_later_example =
    handle_later env secret {capacity = 4096} {Held = Held} unbounded-IsEvicting callback
      (callback ∷ []) empty_server (inr refl) (omega arith)

abbrev target : Target ℕ
target = discard 0

do_request_ends_example :
    (do_request scripted settings "op" post_method "/v2/companies"
      (some null)
      target
      (at_start [])).0
    ≢ err unreachable
do_request_ends_example =
    do_request_ends scripted settings "op" post_method "/v2/companies" (some null) target
      (at_start [])

unescape-path_segment_example : unescape (path_segment "a/b é") ≡ some (bytes_of_text "a/b é")
unescape-path_segment_example = unescape-path_segment "a/b é"

after_first : Reached scripted clock settings "op" cached after_fetch
after_first =
    called question empty cached quiet after_fetch (ok no_list) (omega arith, omega arith)
      (fresh empty quiet refl) list_fetched

served-IsAnswer_example : IsAnswer scripted clock settings "op" (normalize question) no_list
served-IsAnswer_example =
    served-IsAnswer scripted clock settings "op" empty cached quiet after_fetch question
      {out = no_list} (fresh empty quiet refl) (omega arith, omega arith) list_fetched
