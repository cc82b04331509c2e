-- ===== src/Generation/Tests.antt =====
-- The round trip of the report data at concrete parameters.
use trustflow.Base.Int.{pos}
use trustflow.Attestation.{Report, report_max_size}
use trustflow.Generation.SampleMain.{sample_params, sample_main}
use trustflow.Generation.SampleMain.Laws.{sample_main_iff}
use trustflow.Base.{
  ◌↔◌, ◌≤◌, Str, length, Bytes, some, ℕ, zero, suc, ◌≡◌, refl, arith, [], ◌++◌, codes, replicate,
  All, IsByte,
}
use trustflow.Error.{ok, ◌>>=◌}
use trustflow.External.Sample.{sample, sample-IsExternal}
use trustflow.Attestation.{report_type_passport, json2pb, pb2json}
use trustflow.Verification.Wrapper.{Texts, Outcome}
use trustflow.Verification.Wrapper.Output.{IsOutput}
use trustflow.Generation.Wrapper.{
  Generator, GenCodec, create_attestation_generator, run_generate, generate_attestation_report,
}
use trustflow.Generation.Wrapper.Laws.{generate_attestation_report-IsOutput}
use trustflow.Verification.Dcap.{Qvl, result_ok, halves}
use trustflow.Generation.{GenParams, prepare_report_data}
use trustflow.Generation.Laws.{report_data_shown}

abbrev qvl : Qvl
qvl = record {
  success = 0;
  supplemental_size = 8;
  flags_debug = 2;
  report_data_size = 64;
  get_quote_supplemental_data_size = (0, 8);
  verify_quote = λ quote collateral time size. (0, result_ok);
  result_number = λ r. 0;
}

abbrev params : GenParams
params = record {
  report_type = report_type_passport;
  report_hex_nonce = [];
  hex_user_data = sample.bytes_to_hex_string (replicate 32 5);
  pem_public_key = codes "0102";
}

fives : (n : ℕ) → All IsByte (replicate n 5)
fives zero = tt
fives (suc n) = (omega arith, fives n)

report_data_shown_example :
    (prepare_report_data sample 32 64 params >>= λ d.
    halves sample qvl (codes "head" ++ (d ++ codes "tail")) 4)
    ≡ ok (
      params.hex_user_data,
      sample.bytes_to_hex_string (sample.sha256 (sample.hex_string_to_bytes (codes "0102"))),
    )
report_data_shown_example =
    report_data_shown sample qvl (replicate 32 5) (codes "head") (codes "tail") params
      sample-IsExternal refl (fives 32) refl refl refl (omega arith)

abbrev texts : Texts
texts = record { what = λ x. codes "a long text"; stack_trace = λ x. codes "main" }

abbrev codec : GenCodec
codec = record {
  params_of_json = λ s. some params;
  report_to_json = λ r. some (r.json_report ++ codes "}");
}

abbrev generator : Generator
generator p = ok record {
  str_report_version = [];
  str_report_type = p.report_type;
  str_tee_platform = [];
  json_report = codes "{";
}

generated : run_generate codec (some generator) (some []) (some (replicate 4 1)) 4 ≡ ok (codes "{}")
unfolding run_generate create_attestation_generator json2pb pb2json
generated = refl

generate_attestation_report-IsOutput_example :
    (r : Outcome × (Bytes × ℕ)) × (generate_attestation_report texts codec
        (some generator)
        (some [])
        (some (replicate 4 1))
        4
        (replicate 8 1, 8)
        (replicate 6 1, 6)
      ≡ ok r)
    × IsOutput
        (run_generate codec (some generator) (some []) (some (replicate 4 1)) 4)
        (replicate 4 1)
        r
generate_attestation_report-IsOutput_example =
    generate_attestation_report-IsOutput texts codec (some generator) [] (replicate 4 1)
      (replicate 8 1) (replicate 6 1) (λ h. cc (generated, h)) (omega arith) (omega arith)

abbrev sample_codec : GenCodec
sample_codec = record codec { params_of_json = λ s. some (sample_params sample) }

sample_main_run :
    (sample_main sample texts sample_codec (λ p. some []) (some generator) ≡ ok (pos 0)) ↔ (
      (generate : Generator) × (report : Report) × (json : Str) × (params : Str) × (◌≡◌
        (some generator)
        (some generate))
      × (generate (sample_params sample) ≡ ok report)
      × (sample_codec.report_to_json report ≡ some json)
      × (◌≡◌ (some []) (some params))
      × (length json ≤ report_max_size))
sample_main_run =
    sample_main_iff sample texts sample_codec (λ p. some []) (some generator) (λ s e. refl)
