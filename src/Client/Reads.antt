-- ===== src/Client/Reads.antt =====
-- Steps that only read, with a rule for each way that they are composed.
use integration_nfeio.Base.{ℕ, String, Bool, true, false, none, ◌≡◌, refl, arith, if◌then◌else◌}
use integration_nfeio.Config.{Config}
use integration_nfeio.Http.{get_method, Request, Net, Result, M, after}
use integration_nfeio.Client.{Target, do_request}
use integration_nfeio.Client.Sends.{
  do_request-SentOnly, Sends, Sends-pure, Sends-bind, Sends-weaken,
}

abbrev pub IsGet : Request → Type 0
IsGet r = r.method ≡ get_method

module _ {S : Type 0} where
  -- A step that sends at most three requests, each of them a GET.
  abbrev pub Reads : {A : Type 0} → M S A → Type 0
  Reads m = Sends IsGet 3 m

  pub Reads-pure : {A : Type 0} (r : Result A) → Reads (λ w. (r, w))
  Reads-pure r = Sends-weaken 0 3 (omega arith) (Sends-pure r)

  pub Reads-if :
      {A : Type 0} {k : ℕ} (b : Bool) {m n : M S A}
      → Sends IsGet k m
      → Sends IsGet k n
      → Sends IsGet k (λ w. if b then m w else n w)
  Reads-if true h g = h
  Reads-if false h g = g

  -- A step that sends nothing after one that reads.
  pub Reads-after :
      {A B : Type 0} {m : M S A} (k : A → M S B)
      → Reads m
      → ((a : A) → Sends IsGet 0 (k a))
      → Reads (λ w. after k (m w))
  Reads-after {m} k h g = Sends-bind {a = m} {k = k} h g

  module _ (net : Net S) (cfg : Config) (op : String) where
    pub Reads-get :
        {A : Type 0} (path : String) (out : Target A)
        → Reads (do_request net cfg op get_method path none out)
    Reads-get path out = record {
      run = λ w. do_request-SentOnly IsGet net cfg op get_method path none out w refl;
    }
