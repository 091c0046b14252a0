-- ===== src/Examples/Invoices.antt =====
-- Templates, invoices and companies on concrete data, with whole amounts.
use integration_nfeio.Base.{
  ℕ, ◌-◌, ◌*◌, String, true, false, Option, none, some, List, [], ◌∷◌, pos, ltb, leb, show_nat,
  read_digits, All, ◌≡◌, ◌≢◌, refl, arith, eq_iff,
}
use integration_nfeio.Json.{Bytes, null, obj, field, end, str, num}
use integration_nfeio.Floats.{Floats}
use integration_nfeio.Http.{Reply, World}
use integration_nfeio.Template.{MunicipioTemplate, find_template, Entry}
use integration_nfeio.Invoice.{IssueInput, Invoice, Selection, no_invoice, issue_nfse}
use integration_nfeio.Invoice.Issued.{IsIssued, issue-IsIssued}
use integration_nfeio.Invoice.Cancel.{Cancellation, destroy_service_invoice}
use integration_nfeio.Invoice.Cancel.Confirmed.{IsAnswered, destroy-IsCancelled}
use integration_nfeio.Invoice.Document.{retrieve_doc}
use integration_nfeio.Invoice.Document.Retrieved.{IsRetrieved, retrieve-IsRetrieved}
use integration_nfeio.Company.{CompanyInput, Company, ensure_company}
use integration_nfeio.Company.Registered.{IsRegistered, ensure-IsRegistered}
use integration_nfeio.Examples.{scripted, reply, settings, at_start}

abbrev pub whole : Floats ℕ
whole = record {
  zero = 0;
  one = 1;
  less = ltb;
  at_most = leb;
  minus = λ a b. a - b;
  times = λ a b. a * b;
  parse = read_digits 0;
  print = show_nat;
}

abbrev pub rio : MunicipioTemplate ℕ
rio = record {
  api_version = "v1";
  municipio_code = "3304557";
  name = "Rio de Janeiro";
  state = "RJ";
  service_codes = record {
    city_service_code = "1";
    federal_service_code = "2";
    cnae_code = "";
    nbs_code = "";
  };
  iss = record { rate = 1; taxation_type = "WithinCity"; special_regime = "" };
  location_defaults = record { country = "BRA"; city_code = "3304557"; city_name = "Rio" };
  rps_serial_number = "";
  notes = "";
}

abbrev pub directory : List (Entry whole)
directory =
    record { name = "README"; is_dir = false; parsed = none }
    ∷ record { name = "3304557.yaml"; is_dir = false; parsed = some rio }
    ∷ []

abbrev pub order : IssueInput ℕ
order = record {
  company_id = "";
  municipio_code = "3304557";
  external_id = "x1";
  borrower_name = "Ana";
  borrower_ftn = pos 11;
  borrower_mtn = "";
  borrower_tax_regime = "";
  borrower_addr = null;
  borrower_email = "";
  service_amount = 100;
  description = "service";
  issued_on = "";
  rps_serial_number = "";
  additional_info = "";
  deductions_amount = 0;
  discount_unconditioned_amount = 0;
}

abbrev conflict : World (List Reply)
conflict =
    at_start (reply 503 "" none ∷ reply 409 "{...}" (some (obj (field "id" (str "i1") end))) ∷ [])

abbrev existing : Invoice ℕ
existing = record (no_invoice whole) { id = "i1"; duplicate = true }

issue-IsIssued_example :
    (tpl : MunicipioTemplate ℕ) × (find_template "3304557" (("3304557", rio) ∷ []) ≡ some tpl)
    × IsIssued whole scripted settings tpl order existing
        (issue_nfse whole scripted settings "op" (("3304557", rio) ∷ []) order conflict).1
unfolding issue_nfse integration_nfeio.Client.do_request integration_nfeio.Invoice.decode_invoice
issue-IsIssued_example =
    issue-IsIssued whole scripted settings "op" (("3304557", rio) ∷ []) order conflict
      {out = existing} refl

abbrev cancelling : World (List Reply)
cancelling = at_start (reply 200 "{...}" (some (obj (field "status" (str "Cancelled") end))) ∷ [])

destroy-IsCancelled_example :
    (◌≢◌ {A = String} "i1" "")
    × ((raw : Cancellation) × (raw.status ≡ "Cancelled")
        × IsAnswered scripted settings "" "i1" raw
            (destroy_service_invoice scripted settings "op" "i1" "" cancelling).1)
unfolding destroy_service_invoice integration_nfeio.Client.do_request
    integration_nfeio.Invoice.Cancel.decode_cancellation
destroy-IsCancelled_example = destroy-IsCancelled scripted settings "op" "i1" "" cancelling refl

abbrev chosen : Selection
chosen = record { company_id = "c2"; invoice_id = "i/1" }

abbrev retrieving : World (List Reply)
retrieving =
    at_start (reply 200 "{...}" (some (obj (field "documentUrl" (str "https://s3/x") end))) ∷ [])

retrieve-IsRetrieved_example :
    IsRetrieved scripted settings chosen "pdf"
      (record { url = "https://s3/x"; expires_at = "" })
      (retrieve_doc scripted settings "op" chosen "pdf" retrieving).1
unfolding retrieve_doc integration_nfeio.Client.do_request
    integration_nfeio.Invoice.Document.decode_doc
retrieve-IsRetrieved_example =
    retrieve-IsRetrieved scripted settings "op" chosen "pdf" retrieving refl

abbrev by_alias : Bytes
by_alias = record { text = "{...}"; doc = some (obj (field "id" (str "i1") end)) }

abbrev found : World (List Reply)
found = at_start (reply 200 "{...}" (some (obj (field "id" (str "i1") end))) ∷ [])

abbrev shop : CompanyInput
shop = record {
  name = "Shop";
  federal_tax_number = pos 7;
  trade_name = "";
  email = "";
  opening_date = "";
  tax_regime = "";
  special_tax_regime = "";
  municipal_tax_number = "";
  address = null;
  login_name = "";
  login_password = "";
  certificate_base64 = "";
  certificate_password = "";
}

abbrev registering : World (List Reply)
registering = at_start (
    reply 409 "{...}" (some (obj (field "id" (str "c7") (field "federalTaxNumber" (num "7") end))))
    ∷ [])

ensure-IsRegistered_example :
    IsRegistered scripted settings shop
      (record {
        id = "c7";
        federal_tax_number = pos 7;
        name = "";
        status = "";
        already_registered = true;
      })
      (ensure_company scripted settings "op" shop registering).1
unfolding ensure_company integration_nfeio.Client.do_request
    integration_nfeio.Company.decode_company integration_nfeio.Base.atoi
ensure-IsRegistered_example = ensure-IsRegistered scripted settings "op" shop registering refl
