-- ===== src/Proxy/Ra/Laws.antt =====
-- What a client of the RA proxy can rely on.
use trustflow.Base.{
  ◌<◌, ◌≡◌, ◌≢◌, refl, arith, Option, none, some, Bytes, Str, ◌++◌, codes, length, replicate,
  str_eq, str_eq_of_ne, str_eq_iff, All, IsByte,
}
use trustflow.Error.{ok, with_value, ◌>>=◌}
use trustflow.External.{External, IsExternal}
use trustflow.Attestation.{Report}
use trustflow.Verification.Dcap.{Qvl, halves}
use trustflow.Generation.{prepare_report_data, fill_report_data, memcpy_some}
use trustflow.Generation.Laws.{checked, memcpy_there, first_half, halves_of}
use trustflow.Generation.Wrapper.{Generator, create_attestation_generator}
use trustflow.Proxy.{success_status, tee_plat_sim, success, caught}
use trustflow.Proxy.Ra.{ra_params, gen_ra_report, RaCertResponse, cert_report, ra_get_ra_cert}

-- The report data that the Intel generators fill for `GenRaReport` is the hash of the user data and
-- then zeros; whichever the quote around it is, the verifiers show it as hexadecimal user data.
pub ra_report_shown :
    (X : External) (Q : Qvl) (user_data front back : Bytes)
    → IsExternal X
    → All IsByte (X.sha256 user_data)
    → Q.report_data_size ≡ 64
    → (prepare_report_data X 32 64 (ra_params X user_data) >>= λ d.
        halves X Q (front ++ (d ++ back)) (length front))
      ≡ ok (X.bytes_to_hex_string (X.sha256 user_data), X.bytes_to_hex_string (replicate 32 0))
unfolding prepare_report_data fill_report_data ra_params memcpy_some
ra_report_shown X Q user_data front back x bs size =
    let u = X.sha256 user_data in
    let len = x.length-sha256 user_data in
    let some_data : 0 < length (X.bytes_to_hex_string u) =
      omega (arith, x.length-bytes_to_hex_string u, len) in
    rw (
      checked X x u (ra_params X user_data) len refl refl,
      memcpy_there (X.bytes_to_hex_string u) (replicate 64 0) 0
          (X.hex_string_to_bytes (X.bytes_to_hex_string u)) some_data,
      x.hex_string_to_bytes-bytes_to_hex_string u bs,
      first_half u len,
      halves_of X Q front u (replicate 32 0) back size len refl,
    )

pub made :
    (X : External) (tee : Option Generator) (user_data : Bytes) (report : Report)
    → gen_ra_report X tee user_data ≡ ok report
    → (generate : Generator) × (tee ≡ some generate)
      × (generate (ra_params X user_data) ≡ ok report)
unfolding gen_ra_report create_attestation_generator
made X none user_data report h = cc
made X (some generate) user_data report h = (generate, refl, h)

replied :
    (X : External) (tee : Option Generator) (plat cert nonce : Str) (r : RaCertResponse)
    → ra_get_ra_cert X tee cert plat nonce ≡ ok (success r)
    → (cert_report X tee cert (str_eq plat tee_plat_sim) nonce ≡ ok r.attestation_report)
      × (r.cert ≡ cert)
      × (r.status ≡ success_status)
unfolding ra_get_ra_cert caught
replied X tee plat cert nonce r h =
    with_value (cert_report X tee cert (str_eq plat tee_plat_sim) nonce) (λ x e. ground arith)
      (λ e. ground arith) λ a e. ground arith

-- A reply that is not a failure has the proxy's certificate and status OK. It has no report if the
-- platform is simulated; otherwise it has the report that the platform's generator makes over the
-- hash of the certificate, a dot and the nonce.
pub ra_get_ra_cert_success :
    (X : External) (tee : Option Generator) (plat cert nonce : Str) (r : RaCertResponse)
    → ra_get_ra_cert X tee cert plat nonce ≡ ok (success r)
    → (r.cert ≡ cert)
      × (r.status ≡ success_status)
      × (plat ≡ tee_plat_sim → r.attestation_report ≡ none)
      × (plat ≢ tee_plat_sim
          → (generate : Generator) × (report : Report) × (tee ≡ some generate)
            × (generate (ra_params X (cert ++ (codes "." ++ nonce))) ≡ ok report)
            × (r.attestation_report ≡ some report))
unfolding cert_report
ra_get_ra_cert_success X tee plat cert nonce r h =
    let (e, c, st) = replied X tee plat cert nonce r h in
    (
      c,
      st,
      λ sim. (let is_sim = (str_eq_iff plat tee_plat_sim).1 sim in ground arith),
      λ real.
          (let not_sim = str_eq_of_ne plat tee_plat_sim real in
            with_value (gen_ra_report X tee (cert ++ (codes "." ++ nonce))) (λ x f. ground arith)
              (λ f. ground arith)
              λ report f.
                (let (generate, g, m) = made X tee (cert ++ (codes "." ++ nonce)) report f in
                  (generate, report, g, m, ground arith))),
    )
