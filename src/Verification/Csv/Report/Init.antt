-- ===== src/Verification/Csv/Report/Init.antt =====
-- What `Init` leaves behind.
use trustflow.Base.{ℕ, ◌≡◌, refl, ap, arith, true, Bytes, Str, str_eq, str_eq_iff, length, String}
use trustflow.Error.{Result, ok, with_value}
use trustflow.Attestation.{Report, report_version, report_type_passport, platform_csv, json2pb}
use trustflow.Verification.Csv.Layout.{Layout}
use trustflow.Verification.Csv.Report.{Codec, CsvVerifier, check_report, decode_struct, init}

-- The state belongs to a passport of version 1.0 for CSV, and its structs have their sizes.
pub record IsSetUp (L : Layout) (report : Report) (v : CsvVerifier) : Type 0 where
  pub same_report : v.report ≡ report
  pub right_version : report.str_report_version ≡ report_version
  pub right_type : report.str_report_type ≡ report_type_passport
  pub right_platform : report.str_tee_platform ≡ platform_csv
  pub quote_size : length v.quote ≡ L.report_size
  pub hsk_cert_size : length v.hsk_cert ≡ L.chip_root_cert_size
  pub cek_cert_size : length v.cek_cert ≡ L.csv_cert_size

decode_struct-length :
    (decode : Str → Result Bytes) (b64 : Str) (size : ℕ) (template : String) {b : Bytes}
    → decode_struct decode b64 size template ≡ ok b
    → length b ≡ size
unfolding decode_struct
decode_struct-length decode b64 size template {b} h =
    with_value (decode b64) (λ x e. ground arith) (λ e. ground arith)
      λ bytes e1.
        let right : length bytes ≡ size = ground arith in
        let same : bytes ≡ b = ground arith in omega (arith, ap length same)

check_report_lem :
    (r : Report)
    → check_report r ≡ ok tt
    → (str_eq r.str_report_version report_version ≡ true)
      × (str_eq r.str_report_type report_type_passport ≡ true)
      × (str_eq r.str_tee_platform platform_csv ≡ true)
unfolding check_report
check_report_lem r h = (ground arith, ground arith, ground arith)

-- A verifier is set up only for a report of version 1.0, of type passport and of platform CSV, and
-- its quote and its two certificates then have the sizes of their structs.
pub init-IsSetUp :
    (L : Layout) (C : Codec) (report : Report) (v : CsvVerifier)
    → init L C report ≡ ok v
    → IsSetUp L report v
unfolding init
init-IsSetUp L C report v h =
    with_value (check_report report) (λ x e. ground arith) (λ e. ground arith)
      λ _ e1.
        with_value (json2pb C.csv_report_of_json report.json_report) (λ x e. ground arith)
          (λ e. ground arith)
          λ r e2.
            with_value
              (decode_struct C.base64_decode r.b64_quote L.report_size
                "Csv quote size err, expect {}, got {}")
              (λ x e. ground arith) (λ e. ground arith)
              λ quote e3.
                with_value (json2pb C.csv_cert_chain_of_json r.json_cert_chain)
                  (λ x e. ground arith) (λ e. ground arith)
                  λ c e4.
                    with_value
                      (decode_struct C.base64_decode c.b64_hsk_cert L.chip_root_cert_size
                        "Csv hsk cert size err, expect {}, got {}")
                      (λ x e. ground arith) (λ e. ground arith)
                      λ hsk e5.
                        with_value
                          (decode_struct C.base64_decode c.b64_cek_cert L.csv_cert_size
                            "Csv cek cert size err, expect {}, got {}")
                          (λ x e. ground arith) (λ e. ground arith)
                          λ cek e6.
                            let (version, type, platform) = check_report_lem report e1 in
                            let same : v ≡ record {
                              report = report;
                              quote = quote;
                              hsk_cert = hsk;
                              cek_cert = cek;
                            } =
                              ground arith in
                            rw same record {
                              same_report = refl;
                              right_version = (str_eq_iff _ _).0 version;
                              right_type = (str_eq_iff _ _).0 type;
                              right_platform = (str_eq_iff _ _).0 platform;
                              quote_size = decode_struct-length _ _ _ _ e3;
                              hsk_cert_size = decode_struct-length _ _ _ _ e5;
                              cek_cert_size = decode_struct-length _ _ _ _ e6;
                            }
