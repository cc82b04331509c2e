-- ===== src/Verification/Wrapper/Tests.antt =====
-- The theorems on the wrappers at concrete calls.
use trustflow.Base.{Bytes, ℕ, ◌≡◌, ◌↔◌, refl, arith, some, [], ◌∷◌, codes, replicate, str_eq}
use trustflow.Error.{Result, ok, throw, std_exception}
use trustflow.External.Sample.{sample}
use trustflow.Attestation.{json2pb, report_version, report_type_passport, platform_tdx}
use trustflow.Verification.Attributes.{
  no_attributes, verify_attributes, verify_attributes_from, attrs_is_match, identity_is_match,
  is_str_equal, is_bool_equal, is_greater_equal_than, pubkey_is_match,
}
use trustflow.Verification.Factory.{Creator, register, creator_of, create, verify_report}
use trustflow.Verification.Wrapper.{
  Texts, Backend, Outcome, finish, success_status, catch_status, create_factory, run_verify,
  attestation_report_verify,
}
use trustflow.Verification.Wrapper.Output.{IsOutput, parse_attributes_from_report-IsOutput}
use trustflow.Verification.Wrapper.{run_parse, parse_attributes_from_report}
use trustflow.Attestation.{pb2json}
use trustflow.Verification.Wrapper.Laws.{IsText, finish_returns}

abbrev texts : Texts
texts = record { what = λ x. codes "a long text"; stack_trace = λ x. codes "main" }

abbrev failed : Result ℕ
failed = throw (std_exception (record { template = ""; arguments = [] }))

finish_returns_example :
    (o : Outcome) × (finish texts failed (replicate 8 1, 8) (replicate 6 1, 6) ≡ ok o)
    × IsText 8 o.msg
    × IsText 6 o.details
    × ((o.code ≡ 0) ↔ ((a : ℕ) × (failed ≡ ok a)))
finish_returns_example =
    finish_returns texts failed (replicate 8 1) (replicate 6 1) (λ h. cc) (omega arith)
      (omega arith)

abbrev accept_all : Creator
accept_all report = ok record { verify_platform = ok tt; parse_unified_report = λ attrs. ok attrs }

abbrev backend : Backend
backend = record {
  tdx = accept_all;
  sgx2 = accept_all;
  csv = accept_all;
  report_of_json = λ s. some record {
    str_report_version = report_version;
    str_report_type = report_type_passport;
    str_tee_platform = platform_tdx;
    json_report = s;
  };
  policy_of_json = λ s. some (no_attributes ∷ []);
  attributes_to_json = λ attrs. some (codes "{}");
}

accepted :
    attestation_report_verify sample texts backend (codes "{}") (codes "{}") ≡ some success_status
unfolding attestation_report_verify catch_status run_verify create create_factory creator_of
    register json2pb verify_report verify_attributes verify_attributes_from attrs_is_match
    identity_is_match is_str_equal is_bool_equal is_greater_equal_than pubkey_is_match str_eq
accepted = refl

parsed : run_parse sample texts backend (codes "{}") 3 ≡ ok (codes "{}")
unfolding run_parse create create_factory creator_of register json2pb pb2json str_eq
parsed = refl

parse_attributes_from_report-IsOutput_example :
    (r : Outcome × (Bytes × ℕ)) × (parse_attributes_from_report sample texts backend
        (codes "{}")
        (replicate 3 1, 3)
        (replicate 8 1, 8)
        (replicate 6 1, 6)
      ≡ ok r)
    × IsOutput (run_parse sample texts backend (codes "{}") 3) (replicate 3 1) r
parse_attributes_from_report-IsOutput_example =
    parse_attributes_from_report-IsOutput sample texts backend (codes "{}") (replicate 3 1)
      (replicate 8 1) (replicate 6 1) (λ h. cc (parsed, h)) (omega arith) (omega arith)
