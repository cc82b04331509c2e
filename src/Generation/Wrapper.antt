-- ===== src/Generation/Wrapper.antt =====
-- generation/interface/generator.cc and generation/wrapper: reports from and to JSON texts, and the
-- C API.
pub mod Laws
use trustflow.Base.{
  ℕ, leb, Bool, true, false, ◌&&◌, Option, none, some, [], ◌∷◌, Bytes, Str, length,
}
use trustflow.Error.{Result, ok, number, enforce, yacl_throw, ◌>>=◌, ◌>>◌}
use trustflow.Attestation.{Report, report_max_size, json2pb, pb2json}
use trustflow.Verification.Wrapper.{Texts, Outcome, finish_with}
use trustflow.Generation.{GenParams}

-- A generator is its `GenerateReport`.
abbrev pub Generator : Type 0
Generator = GenParams → Result Report

-- The platform that the code is compiled for, if it is one of the three.
unfoldable pub create_attestation_generator : Option Generator → Result Generator
create_attestation_generator (some g) = ok g
create_attestation_generator none = yacl_throw "Unsupported TEE type!" []

-- The conversions of protobuf.
pub record GenCodec : Type 0 where
  pub params_of_json : Str → Option GenParams
  pub report_to_json : Report → Option Str

unfoldable pub generate_report_json : GenCodec → Generator → Str → Result Str
generate_report_json C generate gen_params_json = do
  gen_params ← json2pb C.params_of_json gen_params_json
  report ← generate gen_params
  pb2json C.report_to_json report

-- The code, and what is written to `*report_len`.
unfoldable pub get_attestation_report_size : ℕ × ℕ
get_attestation_report_size = (0, report_max_size)

abbrev pub is_some : Option Bytes → Bool
is_some none = false
is_some (some b) = true

-- The text of a buffer; of a null pointer it is never read.
abbrev pub bytes_of : Option Bytes → Bytes
bytes_of none = []
bytes_of (some b) = b

-- The body of `try`; a buffer is none if its pointer is null.
unfoldable pub run_generate :
    GenCodec → Option Generator → Option Bytes → Option Bytes → ℕ → Result Str
run_generate C tee params_buf report_buf report_len = do
  enforce (is_some params_buf && is_some report_buf) "params_buf or report_buf is null" []
  gen_params ← json2pb C.params_of_json (bytes_of params_buf)
  generate ← create_attestation_generator tee
  report ← generate gen_params
  report_json ← pb2json C.report_to_json report
  enforce (leb (length report_json) report_len)
      "report_len(got {}) should not be less than report json size({})"
      (number report_len ∷ number (length report_json) ∷ [])
  ok report_json

unfoldable pub generate_attestation_report :
    Texts
    → GenCodec
    → Option Generator
    → Option Bytes
    → Option Bytes
    → ℕ
    → Bytes × ℕ
    → Bytes × ℕ
    → Result (Outcome × (Bytes × ℕ))
generate_attestation_report T C tee params_buf report_buf report_len msg details =
    finish_with T (run_generate C tee params_buf report_buf report_len)
      (bytes_of report_buf, report_len) msg details
