-- ===== src/Verification/Wrapper.antt =====
-- verification/wrapper/verifier_wrapper.cc and verifier_wrapper_c_api.cc, with common/status.h: the
-- exceptions become codes, and for C the texts go to buffers.
pub mod Laws
pub mod Output
mod Tests
use trustflow.Base.{
  ℕ, zero, suc, ◌+◌, ◌-◌, ltb, leb, Option, none, some, List, [], ◌∷◌, ◌++◌, Bytes, Str, codes,
  length, take, drop, replicate, if◌then◌else◌,
}
use trustflow.Error.{
  Result, ok, throw, undefined, Exception, argument_error, invalid_format, yacl_exception,
  std_exception, Message, number, enforce, ◌>>=◌, ◌>>◌,
}
use trustflow.External.{External}
use trustflow.Attestation.{Report, platform_tdx, platform_sgx_dcap, platform_csv, json2pb, pb2json}
use trustflow.Verification.Attributes.{Attributes, no_attributes}
use trustflow.Verification.Factory.{Verifier, Creator, Factory, register, create, verify_report}

-- `ErrorCode`, as far as it is used.
abbrev pub argument_error_code : ℕ
argument_error_code = 1

abbrev pub invalid_format_code : ℕ
invalid_format_code = 6

abbrev pub internal_error_code : ℕ
internal_error_code = 18

pub record Status : Type 0 where
  pub code : ℕ
  pub message : Str
  pub details : Str

-- `ex.what()` and `ex.stack_trace()`.
pub record Texts : Type 0 where
  pub what : Exception → Str
  pub stack_trace : Exception → Str

-- The handlers in their order; the last one has no stack trace.
unfoldable pub handle : Texts → Exception → Status
handle T (argument_error m) = record {
  code = argument_error_code;
  message = T.what (argument_error m);
  details = T.stack_trace (argument_error m);
}
handle T (invalid_format m) = record {
  code = invalid_format_code;
  message = T.what (invalid_format m);
  details = T.stack_trace (invalid_format m);
}
handle T (yacl_exception m) = record {
  code = internal_error_code;
  message = T.what (yacl_exception m);
  details = T.stack_trace (yacl_exception m);
}
handle T (std_exception m) = record {
  code = internal_error_code;
  message = T.what (std_exception m);
  details = [];
}

abbrev pub success_status : Status
success_status = record { code = 0; message = codes "success"; details = [] }

-- The body of `try` ends with a status, unless it is undefined.
unfoldable pub catch_status : Texts → Result (Unit {0}) → Option Status
catch_status T (ok u) = some success_status
catch_status T (throw x) = some (handle T x)
catch_status T undefined = none

-- The three verifiers and the decoders.
pub record Backend : Type 0 where
  pub tdx : Creator
  pub sgx2 : Creator
  pub csv : Creator
  pub report_of_json : Str → Option Report
  pub policy_of_json : Str → Option (List Attributes)
  pub attributes_to_json : Attributes → Option Str

unfoldable pub create_factory : Backend → Factory
create_factory B =
    register (register (register [] platform_tdx B.tdx) platform_sgx_dcap B.sgx2) platform_csv B.csv

module _ (X : External) (T : Texts) (B : Backend) where
  -- The bodies of `try`.
  unfoldable pub run_verify : Str → Str → Result (Unit {0})
  run_verify report_json_str policy_json_str = do
    policy ← json2pb B.policy_of_json policy_json_str
    verifier ← create X B.report_of_json (create_factory B) report_json_str
    verify_report X verifier policy

  unfoldable pub run_parse : Str → ℕ → Result Str
  run_parse report_json_str attrs_buf_len = do
    verifier ← create X B.report_of_json (create_factory B) report_json_str
    attrs ← verifier.parse_unified_report no_attributes
    attrs_json ← pb2json B.attributes_to_json attrs
    enforce (leb (length attrs_json) attrs_buf_len)
        "attrs_buf_len(got {}) should not be less than attrs json size({})"
        (number attrs_buf_len ∷ number (length attrs_json) ∷ [])
    ok attrs_json

  -- `AttestationReportVerify` of verifier_wrapper.cc.
  unfoldable pub attestation_report_verify : Str → Str → Option Status
  attestation_report_verify report_json_str policy_json_str =
      catch_status T (run_verify report_json_str policy_json_str)

-- `strncpy(buf, s, n)` with a buffer of at least `n` bytes: what comes after the text is zeros, and
-- a text of `n` bytes or more loses its terminator.
unfoldable pub strncpy : Bytes → Str → ℕ → Bytes
strncpy buf s n = take n (s ++ replicate (n - length s) 0) ++ drop n buf

-- `strlen`: a buffer without a zero is read past its end.
unfoldable pub strlen : Bytes → Result ℕ
strlen [] = undefined
strlen (zero ∷ bs) = ok 0
strlen (suc b ∷ bs) = do n ← strlen bs; ok (suc n)

-- `buf[i] = 0`, for an index inside.
unfoldable pub clear_at : Bytes → ℕ → Bytes
clear_at [] i = []
clear_at (b ∷ bs) zero = 0 ∷ bs
clear_at (b ∷ bs) (suc i) = b ∷ clear_at bs i

-- "ensure msg end with '\0'": the buffer and the length that is written back.
unfoldable pub terminate : Bytes → ℕ → Result (Bytes × ℕ)
terminate buf buf_len =
    if ltb 0 buf_len
    then (let buf = clear_at buf (buf_len - 1) in strlen buf >>= λ n. ok (buf, n + 1))
    else ok (buf, buf_len)

-- What a call of the C API leaves: the code, and the two buffers with their lengths.
pub record Outcome : Type 0 where
  pub code : ℕ
  pub msg : Bytes × ℕ
  pub details : Bytes × ℕ

-- The code and the buffers once the `try` block has ended. A `std::exception` leaves `details` alone.
unfoldable pub written : Texts → Exception → Bytes × ℕ → Bytes × ℕ → ℕ × Bytes × Bytes
written T (argument_error m) msg details = (
  argument_error_code,
  strncpy msg.0 (T.what (argument_error m)) msg.1,
  strncpy details.0 (T.stack_trace (argument_error m)) details.1,
)
written T (invalid_format m) msg details = (
  invalid_format_code,
  strncpy msg.0 (T.what (invalid_format m)) msg.1,
  strncpy details.0 (T.stack_trace (invalid_format m)) details.1,
)
written T (yacl_exception m) msg details = (
  internal_error_code,
  strncpy msg.0 (T.what (yacl_exception m)) msg.1,
  strncpy details.0 (T.stack_trace (yacl_exception m)) details.1,
)
written T (std_exception m) msg details =
    (internal_error_code, strncpy msg.0 (T.what (std_exception m)) msg.1, details.0)

unfoldable pub after_try :
    {A : Type 0} → Texts → Result A → Bytes × ℕ → Bytes × ℕ → Result (ℕ × Bytes × Bytes)
after_try T (ok a) msg details = ok (0, msg.0, details.0)
after_try T (throw x) msg details = ok (written T x msg details)
after_try T undefined msg details = undefined

-- The handlers and the two terminations that every function of the C API ends with.
unfoldable pub finish : {A : Type 0} → Texts → Result A → Bytes × ℕ → Bytes × ℕ → Result Outcome
finish T body msg details = do
  (code, msg_buf, details_buf) ← after_try T body msg details
  msg_end ← terminate msg_buf msg.1
  details_end ← terminate details_buf details.1
  ok record { code = code; msg = msg_end; details = details_end }

-- The output buffer with its length: it is written once the `try` block has come to its end.
unfoldable pub copied : Result Str → Bytes × ℕ → Bytes × ℕ
copied (ok json) buf = (json ++ drop (length json) buf.0, length json)
copied (throw x) buf = buf
copied undefined buf = buf

-- A function of the C API with an output buffer.
unfoldable pub finish_with :
    Texts → Result Str → Bytes × ℕ → Bytes × ℕ → Bytes × ℕ → Result (Outcome × (Bytes × ℕ))
finish_with T body buf msg details = do
  outcome ← finish T body msg details
  ok (outcome, copied body buf)

module _ (X : External) (T : Texts) (B : Backend) where
  -- `AttestationReportVerify` of verifier_wrapper_c_api.cc.
  unfoldable pub c_attestation_report_verify : Str → Str → Bytes × ℕ → Bytes × ℕ → Result Outcome
  c_attestation_report_verify report_json_str policy_json_str msg details =
      finish T (run_verify X T B report_json_str policy_json_str) msg details

  unfoldable pub parse_attributes_from_report :
      Str → Bytes × ℕ → Bytes × ℕ → Bytes × ℕ → Result (Outcome × (Bytes × ℕ))
  parse_attributes_from_report report_json_str attrs_buf msg details =
      finish_with T (run_parse X T B report_json_str attrs_buf.1) attrs_buf msg details
