-- ===== src/Generation/Wrapper/Laws.antt =====
-- What `GenerateAttestationReport` leaves in its buffers.
use trustflow.Base.{ℕ, ◌<◌, ◌≤◌, ◌≡◌, ◌≢◌, arith, leb→le, ap, Option, some, Bytes, Str, length}
use trustflow.Error.{ok, undefined, with_value}
use trustflow.Attestation.{json2pb, pb2json}
use trustflow.Verification.Wrapper.{Texts, Outcome}
use trustflow.Verification.Wrapper.Output.{IsOutput, finish_with-IsOutput}
use trustflow.Generation.Wrapper.{
  Generator, GenCodec, create_attestation_generator, run_generate, generate_attestation_report,
}

pub run_generate_fits :
    (C : GenCodec) (tee : Option Generator) (params report : Bytes) (n : ℕ) (json : Str)
    → run_generate C tee (some params) (some report) n ≡ ok json
    → length json ≤ n
unfolding run_generate
run_generate_fits C tee params report n json h =
    with_value (json2pb C.params_of_json params) (λ x e. ground arith) (λ e. ground arith)
      λ p e1.
        with_value (create_attestation_generator tee) (λ x e. ground arith) (λ e. ground arith)
          λ generate e2.
            with_value (generate p) (λ x e. ground arith) (λ e. ground arith)
              λ r e3.
                with_value (pb2json C.report_to_json r) (λ x e. ground arith) (λ e. ground arith)
                  λ report_json e4.
                    let le : length report_json ≤ n =
                      leb→le (length report_json) n (ground arith) in
                    let same : report_json ≡ json = ground arith in omega (arith, ap length same)

-- With buffers that are there and have the sizes that it is told, those of texts not empty, the
-- function returns unless its `try` block is undefined; if the code is 0, the report's JSON is at the start of the buffer, which
-- it fits, and the length given is that of the JSON without a terminator, whatever the note of the header says of
-- lengths; if not, that buffer and its length are as before.
pub generate_attestation_report-IsOutput :
    (T : Texts) (C : GenCodec) (tee : Option Generator) (params buf msg details : Bytes)
    → run_generate C tee (some params) (some buf) (length buf) ≢ undefined
    → 0 < length msg
    → 0 < length details
    → (r : Outcome × (Bytes × ℕ)) × (generate_attestation_report T C tee
          (some params)
          (some buf)
          (length buf)
          (msg, length msg)
          (details, length details)
        ≡ ok r)
      × IsOutput (run_generate C tee (some params) (some buf) (length buf)) buf r
unfolding generate_attestation_report
generate_attestation_report-IsOutput T C tee params buf msg details d hm hd =
    finish_with-IsOutput T (run_generate C tee (some params) (some buf) (length buf)) buf msg
      details d (run_generate_fits C tee params buf (length buf)) hm hd
