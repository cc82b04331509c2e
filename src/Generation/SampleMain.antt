-- ===== src/Generation/SampleMain.antt =====
-- sample/generation/main.cc: a report by the class and one by the C API.
pub mod Laws
use trustflow.Base.{ℕ, ◌==◌, [], ◌∷◌, Option, none, some, Str, codes, replicate}
use trustflow.Base.Int.{ℤ, pos, negsuc}
use trustflow.Error.{Result, ok, throw, undefined, text, number, enforce, ◌>>=◌, ◌>>◌}
use trustflow.External.{External}
use trustflow.Attestation.{report_type_passport, pb2json}
use trustflow.Verification.Wrapper.{Texts}
use trustflow.Generation.{GenParams}
use trustflow.Generation.Wrapper.{
  Generator, GenCodec, create_attestation_generator, get_attestation_report_size,
  generate_attestation_report,
}

abbrev pub sample_params : External → GenParams
sample_params X = record {
  report_type = report_type_passport;
  report_hex_nonce = [];
  hex_user_data = X.bytes_to_hex_string (codes "user_data");
  pem_public_key = [];
}

-- `msg_len` and `details_len`
abbrev pub sample_msg_len : ℕ
sample_msg_len = 512

abbrev pub sample_details_len : ℕ
sample_details_len = 4096

module _ (X : External) (T : Texts) (C : GenCodec) (params_to_json : GenParams → Option Str)
    (tee : Option Generator) where
  -- The call of the C API with buffers of these sizes, filled with zeros.
  unfoldable pub call_c_api : Str → ℕ → ℕ → ℕ → Result (Unit {0})
  call_c_api params_buf report_len msg_len details_len = do
    (outcome, report_buf) ←
        generate_attestation_report T C tee (some params_buf) (some (replicate report_len 0))
          report_len (replicate msg_len 0, msg_len) (replicate details_len 0, details_len)
    enforce (outcome.code == 0) "GenerateAttestationReport err: {}, msg: {}, details: {}"
        (number outcome.code ∷ text outcome.msg.0 ∷ text outcome.details.0 ∷ [])

  -- The body of `try`.
  unfoldable pub run_sample_main : Result (Unit {0})
  run_sample_main = do
    generate ← create_attestation_generator tee
    report ← generate (sample_params X)
    report_json ← pb2json C.report_to_json report
    params_buf ← pb2json params_to_json (sample_params X)
    let (code, report_len) = get_attestation_report_size
    enforce (code == 0) "GetAttestationReportSize err: {}" (number code ∷ [])
    call_c_api params_buf report_len sample_msg_len sample_details_len

  -- What `main` returns.
  unfoldable pub sample_main : Result ℤ
  sample_main = elim run_sample_main [
    | ok u ↦ ok (pos 0)
    | throw x ↦ ok (negsuc 0)
    | undefined ↦ undefined
  ]
