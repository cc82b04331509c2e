-- ===== src/Proxy/Ra.antt =====
-- utils/ra_util.cc and ra_proxy/ra_proxy.cc: a report over data, and the RPC that gives the proxy's
-- certificate with a report.
pub mod Laws
use trustflow.Base.{
  Bool, true, false, not, Option, none, some, [], ◌∷◌, ◌++◌, Bytes, Str, codes, str_eq,
}
use trustflow.Error.{Result, ok, ◌>>=◌, ◌>>◌}
use trustflow.External.{External}
use trustflow.Attestation.{Report}
use trustflow.Generation.{GenParams}
use trustflow.Generation.Wrapper.{Generator, create_attestation_generator}
use trustflow.Proxy.{RpcStatus, success_status, tee_plat_sim, Reply, caught}

-- The parameters of the report; the generators do not read `tee_identity`.
unfoldable pub ra_params : External → Bytes → GenParams
ra_params X user_data = record {
  report_type = codes "Passport";
  report_hex_nonce = [];
  hex_user_data = X.bytes_to_hex_string (X.sha256 user_data);
  pem_public_key = [];
}

module _ (X : External) (tee : Option Generator) where
  unfoldable pub gen_ra_report : Bytes → Result Report
  gen_ra_report user_data = do
    generate ← create_attestation_generator tee
    generate (ra_params X user_data)

-- `GetRaCertResponse`
pub record RaCertResponse : Type 0 where
  pub attestation_report : Option Report
  pub status : RpcStatus
  pub cert : Str

module _ (X : External) (tee : Option Generator) (cert : Str) where
  -- The report over the certificate and the nonce, unless the platform is simulated.
  unfoldable pub cert_report : Bool → Str → Result (Option Report)
  cert_report true nonce = ok none
  cert_report false nonce = do
    report ← gen_ra_report X tee (cert ++ (codes "." ++ nonce))
    ok (some report)

  -- `RaProxyImpl::GetRaCert`, of a proxy with `plat_` and `cert_`.
  unfoldable pub ra_get_ra_cert : Str → Str → Result (Reply RaCertResponse)
  ra_get_ra_cert plat nonce = caught (do
    report ← cert_report (str_eq plat tee_plat_sim) nonce
    ok record { attestation_report = report; status = success_status; cert = cert })
