-- ===== src/Proxy/Tests.antt =====
-- The theorems at concrete inputs.
use trustflow.Base.{
  ℕ, zero, suc, All, IsByte, ◌<◌, ◌≡◌, ◌≢◌, refl, sym, arith, some, none, true, false, [], ◌++◌,
  codes, str_eq, replicate,
}
use trustflow.Error.{ok, ◌>>=◌}
use trustflow.External.Sample.{sample, sample-IsExternal}
use trustflow.Attestation.{Report, pb2json}
use trustflow.CryptoUtil.Sample.{memory, mask-IsGcm}
use trustflow.Verification.Dcap.{Qvl, result_ok, halves}
use trustflow.Generation.{prepare_report_data}
use trustflow.Generation.Wrapper.{Generator, create_attestation_generator}
use trustflow.Proxy.{success_status, tee_plat_sim, success, caught}
use trustflow.Proxy.Ra.{RaCertResponse, ra_params, gen_ra_report, cert_report, ra_get_ra_cert}
use trustflow.Proxy.Ra.Laws.{ra_report_shown, ra_get_ra_cert_success}
use trustflow.Proxy.Jwe.{
  EncryptedRequest, make_jws, plain_text, gen_encrypted_request, parse_encrypted_response,
}
use trustflow.Proxy.Jwe.Cert.{not_null, read_all, x509_cert_pem_to_der, x509_cert_pem_to_der-holds}
use trustflow.Proxy.Jwe.RoundTrip.{parse_encrypted_response-gen_encrypted_request}
use trustflow.Proxy.Sample.{
  plain_pem, plain_pem-IsPem, plain_jose, plain_jose-IsJose, random, report, message_with,
}

abbrev qvl : Qvl
qvl = record {
  success = 0;
  supplemental_size = 8;
  flags_debug = 2;
  report_data_size = 64;
  get_quote_supplemental_data_size = (0, 8);
  verify_quote = λ quote collateral time size. (0, result_ok);
  result_number = λ r. 0;
}

replicate-All : (n b : ℕ) → b < 256 → All IsByte (replicate n b)
replicate-All zero b h = tt
replicate-All (suc n) b h = (h, replicate-All n b h)

ra_report_shown_example :
    (prepare_report_data sample 32 64 (ra_params sample (codes "cert.nonce")) >>= λ d.
    halves sample qvl (codes "head" ++ (d ++ codes "tail")) 4)
    ≡ ok (
      sample.bytes_to_hex_string (sample.sha256 (codes "cert.nonce")),
      sample.bytes_to_hex_string (replicate 32 0),
    )
ra_report_shown_example =
    ra_report_shown sample qvl (codes "cert.nonce") (codes "head") (codes "tail") sample-IsExternal
      (replicate-All 32 7 (omega arith)) refl

abbrev response : RaCertResponse
response = record { attestation_report = some report; status = success_status; cert = codes "c" }

abbrev maker : Generator
maker p = ok report

replied :
    ra_get_ra_cert sample (some maker) (codes "c") (codes "tdx") (codes "n") ≡ ok (success response)
unfolding ra_get_ra_cert caught cert_report gen_ra_report create_attestation_generator str_eq
replied = refl

ra_get_ra_cert_success_example :
    (response.cert ≡ codes "c")
    × (response.status ≡ success_status)
    × (codes "tdx" ≡ tee_plat_sim → response.attestation_report ≡ none)
    × (codes "tdx" ≢ tee_plat_sim
        → (generate : Generator) × (made : Report) × (some maker ≡ some generate)
          × (generate (ra_params sample (codes "c" ++ (codes "." ++ codes "n"))) ≡ ok made)
          × (response.attestation_report ≡ some made))
ra_get_ra_cert_success_example =
    ra_get_ra_cert_success sample (some maker) (codes "tdx") (codes "c") (codes "n") response
      replied

x509_cert_pem_to_der-holds_example :
    x509_cert_pem_to_der plain_pem 10 (codes "cert") ≡ ok (codes "cert")
x509_cert_pem_to_der-holds_example =
    x509_cert_pem_to_der-holds plain_pem plain_pem-IsPem 10 (codes "cert") (codes "cert")
      (codes "cert") [] (codes "cert") (codes "cert") refl refl refl refl refl (omega arith)

abbrev unsigned : EncryptedRequest
unsigned = record { has_signature = false; message = message_with (codes "hi") }

abbrev signed : EncryptedRequest
signed = record { has_signature = true; message = message_with (codes "hi") }

unsigned_made :
    gen_encrypted_request memory plain_pem 10 plain_jose some random
      (codes "hi")
      (codes "key")
      (codes "cert")
      (codes "cm")
      false
    ≡ ok unsigned
unfolding gen_encrypted_request plain_text pb2json
unsigned_made = refl

signed_made :
    gen_encrypted_request memory plain_pem 10 plain_jose some random
      (codes "hi")
      (codes "key")
      (codes "cert")
      (codes "cm")
      true
    ≡ ok signed
unfolding gen_encrypted_request plain_text pb2json make_jws x509_cert_pem_to_der not_null read_all
signed_made = refl

parse_encrypted_response-gen_encrypted_request_example :
    parse_encrypted_response memory plain_jose some []
      (record { status = success_status; message = unsigned.message })
      (codes "cm")
    ≡ ok (success_status, codes "hi")
parse_encrypted_response-gen_encrypted_request_example =
    parse_encrypted_response-gen_encrypted_request memory (mask-IsGcm 16) plain_pem 10 plain_jose
      plain_jose-IsJose some random (codes "hi") (codes "key") (codes "cert") (codes "cm")
      (codes "cm") (codes "cm") (codes "cm") some [] unsigned success_status (λ s e. sym e) refl
      refl refl refl tt unsigned_made
