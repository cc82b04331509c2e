-- ===== src/Evidence/Made.antt =====
-- What a report of an SGX platform is made of, and how a verifier is set up from it.
use trustflow.Base.{
  ℕ, ◌≡◌, ◌==◌, ap, arith, some, Bytes, Str, length, replicate, str_eq, str_eq_refl,
}
use trustflow.Error.{ok, with_value}
use trustflow.External.{External}
use trustflow.Attestation.{
  Report, report_version, report_type_passport, platform_sgx_dcap, platform_tdx, Collateral,
  json2pb, pb2json, converted,
}
use trustflow.Verification.Dcap.{DcapReport, DcapCodec, init, check_report, parse_collateral}
use trustflow.Collateral.{IntelQv, get_intel_collateral}
use trustflow.Generation.{GenParams, check_report_type, prepare_report_data}
use trustflow.Generation.Intel.{
  DcapEncoder, SgxDevice, TdxDevice, Sizes, got_quote, tdx_generate_report, collateral_json,
  make_report, prepare_sgx_report_data, sgx2_generate_report,
}
use trustflow.Evidence.{IsCodec}

module _ (X : External) (S : Sizes) (E : DcapEncoder) (Q : IntelQv) where
  -- The JSON texts of a report of type passport, with the collateral for its quote.
  abbrev pub IsReportOn : Str → Bytes → ℕ → Collateral → Report → Type 0
  IsReportOn platform quote quote_size collateral report =
      (cs : Str) × (rs : Str) × (get_intel_collateral Q quote quote_size ≡ ok collateral)
      × (E.collateral_to_json collateral ≡ some cs)
      × (E.report_to_json (record { b64_quote = E.base64_encode quote; json_collateral = cs })
          ≡ some rs)
      × (report ≡ record {
        str_report_version = report_version;
        str_report_type = report_type_passport;
        str_tee_platform = platform;
        json_report = rs;
      })

  made_report :
      (platform : Str) (quote : Bytes) (quote_size : ℕ) (report : Report)
      → make_report X S E Q platform report_type_passport quote quote_size ≡ ok report
      → (collateral : Collateral) × IsReportOn platform quote quote_size collateral report
  unfolding make_report collateral_json str_eq
  made_report platform quote quote_size report h =
      with_value (get_intel_collateral Q quote quote_size) (λ x e. ground arith) (λ e. ground arith)
        λ collateral e1.
          with_value (pb2json E.collateral_to_json collateral) (λ x e. ground arith)
            (λ e. ground arith)
            λ cs e2.
              (let r : DcapReport = record {
                b64_quote = E.base64_encode quote;
                json_collateral = cs;
              } in
                with_value (pb2json E.report_to_json r) (λ x e. ground arith) (λ e. ground arith)
                  λ rs e3. (
                    collateral,
                    (
                      cs,
                      rs,
                      e1,
                      converted E.collateral_to_json collateral cs e2,
                      converted E.report_to_json r rs e3,
                      ground arith,
                    ),
                  ))

  -- A report of an SGX platform is on a quote that the device gives for the report data.
  pub sgx2_report_made :
      (D : SgxDevice) (p : GenParams) (report : Report)
      → p.report_type ≡ report_type_passport
      → sgx2_generate_report X S E Q D p ≡ ok report
      → (d : Bytes) × (quote_len : ℕ) × (quote : Bytes) × (collateral : Collateral)
        × (prepare_sgx_report_data X S E Q p ≡ ok d)
        × (D.gen_dcap_quote d D.get_dcap_quote_size.1 (replicate D.get_dcap_quote_size.1 0)
            ≡ (0, quote_len, quote))
        × IsReportOn platform_sgx_dcap quote quote_len collateral report
  unfolding sgx2_generate_report check_report_type
  sgx2_report_made D p report passport h =
      let run = rw passport at h in
      with_value (prepare_sgx_report_data X S E Q p) (λ x e. ground arith) (λ e. ground arith)
        λ d e1.
          (let size = D.get_dcap_quote_size.1 in
            let quote_len = (D.gen_dcap_quote d size (replicate size 0)).1 in
            let quote = (D.gen_dcap_quote d size (replicate size 0)).2 in
            let good : (D.gen_dcap_quote d size (replicate size 0)).0 ≡ 0 = ground arith in
            let made : make_report X S E Q platform_sgx_dcap report_type_passport quote quote_len
                ≡ ok report =
              ground arith in
            let (collateral, on) = made_report platform_sgx_dcap quote quote_len report made in
            (d, quote_len, quote, collateral, e1, ap (λ n. (n, quote_len, quote)) good, on))

  given :
      (D : TdxDevice) (d quote : Bytes)
      → got_quote X S E Q
          (D.tdx_att_get_quote d).0
          ((D.tdx_att_get_quote d).0 == D.success)
          (D.tdx_att_get_quote d).1
        ≡ ok quote
      → D.tdx_att_get_quote d ≡ (D.success, some quote)
  unfolding got_quote
  given D d quote e = ground arith

  -- A report of a TDX platform is on a quote that the device gives for the report data.
  pub tdx_report_made :
      (D : TdxDevice) (p : GenParams) (report : Report)
      → p.report_type ≡ report_type_passport
      → tdx_generate_report X S E Q D p ≡ ok report
      → (d : Bytes) × (quote : Bytes) × (collateral : Collateral) × (prepare_report_data X
            S.sgx_hash_size S.report_data_size p
          ≡ ok d)
        × (D.tdx_att_get_quote d ≡ (D.success, some quote))
        × IsReportOn platform_tdx quote (length quote) collateral report
  unfolding tdx_generate_report check_report_type
  tdx_report_made D p report passport h =
      let run = rw passport at h in
      with_value (prepare_report_data X S.sgx_hash_size S.report_data_size p) (λ x e. ground arith)
        (λ e. ground arith)
        λ d e1.
          (let (ret, buf) = D.tdx_att_get_quote d in
            with_value (got_quote X S E Q ret (ret == D.success) buf) (λ x e. ground arith)
              (λ e. ground arith)
              λ quote e2.
                (let made : make_report X S E Q platform_tdx report_type_passport quote
                        (length quote)
                      ≡ ok report =
                    ground arith in
                  let (collateral, on) =
                    made_report platform_tdx quote (length quote) report made in
                  (d, quote, collateral, e1, given D d quote e2, on)))

module _ (X : External) (S : Sizes) (E : DcapEncoder) (Q : IntelQv) (C : DcapCodec)
    (I : IsCodec E C) where
  -- The verifier of the platform has the quote and the collateral of the report.
  pub report_set_up :
      (platform : Str) (quote : Bytes) (quote_size : ℕ) (collateral : Collateral) (report : Report)
      → IsReportOn X S E Q platform quote quote_size collateral report
      → init platform C report
        ≡ ok (record { report = report; quote = quote; collateral = collateral })
  unfolding init check_report parse_collateral json2pb str_eq
  report_set_up platform quote quote_size collateral report (cs, rs, e1, e2, e3, e4) =
      let (some_text, parsed) = I.collateral_of_json-to_json collateral cs e2 in
      rw (
        e4,
        str_eq_refl platform,
        I.report_of_json-to_json _ rs e3,
        json2pb,
        I.base64_decode-encode quote,
        some_text,
        parsed,
      )
