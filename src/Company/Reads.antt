-- ===== src/Company/Reads.antt =====
-- `ObserveCompanies` only reads.
use integration_nfeio.Base.{String, not, eq_str}
use integration_nfeio.Json.{Bytes, Decoded}
use integration_nfeio.Config.{Config}
use integration_nfeio.Http.{Net, ok, err}
use integration_nfeio.Client.Sends.{Sends-pure}
use integration_nfeio.Client.Reads.{Reads, Reads-pure, Reads-if, Reads-after, Reads-get}
use integration_nfeio.Company.{
  Filter, one_company, company_page, decode_company_filter, observe_filtered, observe_companies,
}

module _ {S : Type 0} (net : Net S) (cfg : Config) (op : String) where
  observe_filtered-Reads : (in' : Decoded Filter) → Reads (observe_filtered net cfg op in')
  observe_filtered-Reads in' = Reads-if in'.failed (Reads-pure (err _)) (
      Reads-if (not (eq_str in'.value.id ""))
        (Reads-after one_company (Reads-get net cfg op _ _) (λ raw. Sends-pure (ok _)))
        (Reads-after company_page (Reads-get net cfg op _ _) (λ page. Sends-pure (ok _))))

  pub observe_companies-Reads : (raw : Bytes) → Reads (observe_companies net cfg op raw)
  unfolding observe_companies
  observe_companies-Reads raw = observe_filtered-Reads (decode_company_filter raw)
