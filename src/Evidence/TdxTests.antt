-- ===== src/Evidence/TdxTests.antt =====
-- A report that a concrete TDX platform makes, and its verification.
use trustflow.Base.{
  ℕ, ◌≡◌, refl, ap, ◌∙◌, sym, arith, none, some, [], ◌∷◌, ◌++◌, inl, Bytes, codes, length,
  replicate, str_eq, append-nil,
}
use trustflow.Error.{ok}
use trustflow.External.Sample.{sample, to_hex, from_hex, sample-IsExternal}
use trustflow.Attestation.{
  Report, report_version, report_type_passport, platform_tdx, view, pb2json,
}
use trustflow.CryptoUtil.Word.{join_bytes}
use trustflow.Verification.Attributes.{no_attributes}
use trustflow.Verification.Dcap.{DcapVerifier}
use trustflow.Verification.Dcap.Laws.{view_inside}
use trustflow.Verification.Tdx.{Layout}
use trustflow.Verification.Tdx.Laws.{IsTdxQuote}
use trustflow.Verification.Tdx.Shown.{IsBody}
use trustflow.Verification.Wrapper.{Backend}
use trustflow.Collateral.{char_array_2_string, got_collateral, get_intel_collateral}
use trustflow.Generation.{
  memcpy, memcpy_some, check_params, fill_report_data, prepare_report_data, check_report_type,
}
use trustflow.Generation.Intel.{
  TdxDevice, collateral_json, make_report, got_quote, tdx_generate_report,
}
use trustflow.Evidence.Tdx.{IsTdxDevice, IsJudged, tdx_report_verified}
use trustflow.Evidence.Sample.{
  pack, members, encoder, decoder, decoder-IsCodec, intel, at, qvl, sizes, fives, params,
  collateral, texts, none_set_up,
}

-- The header of a quote of version 4 and the measurements, up to the report data.
abbrev front : Bytes
front = 0x81 ∷ 4 ∷ replicate 14 1

abbrev device : TdxDevice
device = record { success = 0; tdx_att_get_quote = λ d. (0, some (front ++ d)) }

abbrev layout : Layout
layout = record {
  quote4_size = 80;
  quote5_size = 10;
  tee_type = at 0 1;
  version = at 1 1;
  report_body = 2;
  body = 4;
  report2_body = record {
    measurement_size = 1;
    mr_seam = 0;
    mrsigner_seam = 1;
    mr_td = 2;
    mr_config_id = 3;
    mr_owner = 4;
    mr_owner_config = 5;
    rt_mr = 6;
    report_data = 14;
    td_attributes = 6;
  };
}

body-IsBody : IsBody layout.report2_body 78
body-IsBody = record {
  mr_seam_inside = omega arith;
  mrsigner_seam_inside = omega arith;
  mr_td_inside = omega arith;
  mr_config_id_inside = omega arith;
  mr_owner_inside = omega arith;
  mr_owner_config_inside = omega arith;
  rt_mr_inside = omega arith;
  td_attributes_inside = omega arith;
  report_data_last = refl;
}

front-IsTdxQuote : (d : Bytes) → length d ≡ 64 → IsTdxQuote layout (front ++ d) 2
unfolding join_bytes
front-IsTdxQuote d len = record {
  quote4_fits = omega arith;
  quote5_fits = omega arith;
  tee_type = 0x81 ∷ [];
  tee_type_read = view_inside (front ++ d) 0 1 (omega arith);
  tee_type_tdx = refl;
  version = 4 ∷ [];
  version_read = view_inside (front ++ d) 1 1 (omega arith);
  version_base = inl (refl, refl);
}

device-IsTdxDevice : IsTdxDevice device layout 78
device-IsTdxDevice = record {
  quoted = λ d quote len e.
      (let same : front ++ d ≡ quote = cc in
        (
          2,
          front,
          [],
          rw (← same) (front-IsTdxQuote d len),
          omega (arith, ap length same, len),
          sym same ∙ ap (λ b. front ++ b) (sym (append-nil d)),
          refl,
        ));
}

abbrev quote : Bytes
quote = front ++ (replicate 32 5 ++ replicate 32 7)

abbrev report : Report
report = record {
  str_report_version = report_version;
  str_report_type = report_type_passport;
  str_tee_platform = platform_tdx;
  json_report = pack (quote ∷ (3 ∷ 0 ∷ pack (members collateral)) ∷ []);
}

made : tdx_generate_report sample sizes encoder intel device params ≡ ok report
unfolding tdx_generate_report check_report_type got_quote prepare_report_data check_params
    fill_report_data memcpy_some memcpy make_report collateral_json get_intel_collateral
    got_collateral char_array_2_string view pb2json str_eq to_hex from_hex
made = refl

abbrev backend : Backend
backend = record {
  tdx = none_set_up;
  sgx2 = none_set_up;
  csv = none_set_up;
  report_of_json = λ s. some report;
  policy_of_json = λ s. some (no_attributes ∷ []);
  attributes_to_json = λ attrs. none;
}

tdx_report_verified_example :
    (v : DcapVerifier) × (base : ℕ) × (v.report ≡ report)
    × IsTdxQuote layout v.quote base
    × (get_intel_collateral intel v.quote (length v.quote) ≡ ok v.collateral)
    × IsJudged sample sample-IsExternal texts backend sizes encoder intel device decoder
        decoder-IsCodec layout qvl 78 body-IsBody refl device-IsTdxDevice 0
        (codes "{}")
        (codes "[]")
        (no_attributes ∷ [])
        params
        v
        base
tdx_report_verified_example =
    tdx_report_verified sample sample-IsExternal texts backend sizes encoder intel device decoder
      decoder-IsCodec layout qvl 78 body-IsBody refl device-IsTdxDevice 0 (replicate 32 5) params
      report (codes "{}") (codes "[]") (no_attributes ∷ []) refl refl (fives 32) refl refl refl
      (omega arith) refl made refl refl
