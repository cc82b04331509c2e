-- ===== src/Evidence/Tests.antt =====
-- A report that a concrete platform makes, and its verification.
use trustflow.Base.{
  ℕ, ◌≡◌, refl, ap, ◌∙◌, arith, some, none, [], ◌∷◌, ◌++◌, Bytes, codes, length, replicate, str_eq,
  ◌+◌, true, leb, if◌then◌else◌, ◌≤◌, ◌-◌, length-append, length-replicate,
}
use trustflow.Error.{ok}
use trustflow.External.Sample.{sample, to_hex, from_hex, sample-IsExternal}
use trustflow.Attestation.{
  Report, report_version, report_type_passport, platform_sgx_dcap, view, pb2json,
}
use trustflow.Verification.Attributes.{no_attributes}
use trustflow.Verification.Dcap.{DcapVerifier}
use trustflow.Verification.Sgx2.{Layout}
use trustflow.Verification.Sgx2.Laws.{IsLayout}
use trustflow.Verification.Wrapper.{Backend}
use trustflow.Collateral.{char_array_2_string, got_collateral, get_intel_collateral}
use trustflow.Generation.{
  memcpy, memcpy_some, check_params, fill_report_data, prepare_report_data, check_report_type,
}
use trustflow.Generation.Intel.{
  SgxDevice, collateral_json, make_report, prepare_sgx_report_data, sgx2_generate_report,
}
use trustflow.Evidence.{IsDevice}
use trustflow.Evidence.Verified.{IsJudged, generated_report_verified}
use trustflow.Evidence.Sample.{
  pack, members, encoder, decoder, decoder-IsCodec, intel, at, qvl, sizes, fives, params,
  collateral, texts, none_set_up,
}

abbrev device : SgxDevice
device = record {
  opens = true;
  get_dcap_quote_size = (0, 80);
  gen_dcap_quote = λ d size buffer.
      if leb 80 size
      then (0, size - 16, replicate 16 1 ++ (d ++ replicate (size - 80) 0))
      else (1, size, buffer);
}

abbrev layout : Layout
layout = record {
  quote3_size = 80;
  mr_enclave = at 0 2;
  mr_signer = at 2 2;
  isv_prod_id = at 4 2;
  isv_svn = at 6 2;
  report_data = 16;
  flags = at 8 8;
}

layout-IsLayout : IsLayout layout qvl
layout-IsLayout = record {
  mr_enclave_inside = omega arith;
  mr_signer_inside = omega arith;
  isv_prod_id_inside = omega arith;
  isv_svn_inside = omega arith;
  report_data_inside = omega arith;
  flags_inside = omega arith;
  report_data_size_64 = refl;
}

-- The driver has filled the whole buffer.
filled :
    (d quote : Bytes) (size quote_len : ℕ)
    → device.gen_dcap_quote d size (replicate size 0) ≡ (0, quote_len, quote)
    → (80 ≤ size) × (quote ≡ replicate 16 1 ++ (d ++ replicate (size - 80) 0))
filled d quote size quote_len e = ground arith

device-IsDevice : IsDevice device layout
device-IsDevice = record {
  quoted = λ d quote size quote_len len e.
      let (large, is) = filled d quote size quote_len e in
      let tail : Bytes = replicate (size - 80) 0 in
      let size_is : length quote ≡ size =
        ap length is
        ∙ length-append (replicate 16 1) (d ++ tail)
        ∙ ap (λ n. 16 + n)
            (length-append d tail
              ∙ ap (λ n. n + length tail) len
              ∙ ap (λ n. 64 + n) (length-replicate {A = ℕ} (size - 80) 0))
        ∙ omega arith in
      (size_is, replicate 16 1, tail, is, refl, omega arith);
}

abbrev quote : Bytes
quote = replicate 16 1 ++ (replicate 32 5 ++ replicate 32 7)

abbrev report : Report
report = record {
  str_report_version = report_version;
  str_report_type = report_type_passport;
  str_tee_platform = platform_sgx_dcap;
  json_report = pack (quote ∷ (3 ∷ 0 ∷ pack (members collateral)) ∷ []);
}

made : sgx2_generate_report sample sizes encoder intel device params ≡ ok report
unfolding sgx2_generate_report check_report_type prepare_sgx_report_data prepare_report_data
    check_params fill_report_data memcpy_some memcpy make_report collateral_json
    get_intel_collateral got_collateral char_array_2_string view pb2json str_eq to_hex from_hex
made = refl

abbrev backend : Backend
backend = record {
  tdx = none_set_up;
  sgx2 = none_set_up;
  csv = none_set_up;
  report_of_json = λ s. some report;
  policy_of_json = λ s. some (no_attributes ∷ []);
  attributes_to_json = λ attrs. none;
}

generated_report_verified_example :
    (v : DcapVerifier) × (d : Bytes) × (quote_len : ℕ) × (v.report ≡ report)
    × (prepare_sgx_report_data sample sizes encoder intel params ≡ ok d)
    × (device.gen_dcap_quote d 80 (replicate 80 0) ≡ (0, quote_len, v.quote))
    × (get_intel_collateral intel v.quote quote_len ≡ ok v.collateral)
    × IsJudged sample sample-IsExternal texts backend sizes encoder intel device decoder
        decoder-IsCodec layout qvl layout-IsLayout device-IsDevice 0
        (codes "{}")
        (codes "[]")
        (no_attributes ∷ [])
        params
        v
generated_report_verified_example =
    generated_report_verified sample sample-IsExternal texts backend sizes encoder intel device
      decoder decoder-IsCodec layout qvl layout-IsLayout device-IsDevice 0 (replicate 32 5) params
      report (codes "{}") (codes "[]") (no_attributes ∷ []) refl refl (fives 32) refl refl refl
      (omega arith) refl made refl refl
