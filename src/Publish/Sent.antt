-- ===== src/Publish/Sent.antt =====
-- When the dispatcher is there at all, and what its success means.
use integration_nfeio.Base.{
  String, true, false, Option, none, some, leb, eq_iff, ◌≡◌, ◌≢◌, refl, inl, inr, arith, Bool-cases,
}
use integration_nfeio.Json.{Json}
use integration_nfeio.Http.{Response, Reply, failed, answered, Net}
use integration_nfeio.Publish.{
  Dispatcher, dispatcher_from_env, publish_request, published, publish_message,
}

-- A dispatcher that the environment gives has an address and a token, and the given instance.
dispatcher_from_env-some :
    (getenv : String → String) (instance_ref : String) {d : Dispatcher}
    → dispatcher_from_env getenv instance_ref ≡ some d
    → (d.core_url ≢ "") × (d.token ≢ "") × (d.instance_ref ≡ instance_ref)
unfolding dispatcher_from_env
dispatcher_from_env-some getenv instance_ref {d} h =
    (ground (arith, eq_iff d.core_url ""), ground (arith, eq_iff d.token ""), ground arith)

published_answered :
    {S : Type 0} (p : Reply × S)
    → (published p).0 ≡ true
    → (r : Response) × (p ≡ (answered r, (published p).1)) × (leb 300 r.status ≡ false)
published_answered (failed e, s) h = absurd (cc)
published_answered (answered r, s) h = (r, refl, ground arith)

-- Where a publish succeeds, its body was JSON and its request was answered below 300.
pub publish_message_answered :
    {S : Type 0} (net : Net S) (d : Dispatcher) (queue : String) (body : Option Json) (s : S)
    → (publish_message net d queue body s).0 ≡ true
    → (payload : Json) × (body ≡ some payload)
      × ((r : Response) × (net.send (publish_request d queue payload) s
            ≡ (answered r, (publish_message net d queue body s).1))
          × (leb 300 r.status ≡ false))
unfolding publish_message
publish_message_answered net d queue none s h = absurd (cc)
publish_message_answered net d queue (some payload) s h =
    elim (Bool-cases (net.url_parses (publish_request d queue payload).url)) [
      | inr bad ↦ absurd (ground arith)
      | inl fine ↦
          let (r, reply, below) =
            published_answered (net.send (publish_request d queue payload) s) (rw fine at h) in
          (payload, refl, (r, rw fine reply, below))
    ]
