-- ===== src/Verification/Attributes.antt =====
-- verification/interface/verifier.cc: the attributes of a report are held against a policy.
pub mod Policy
mod Compare
pub mod Svn
pub mod Match
pub mod Laws
mod Tests
use trustflow.Base.{
  ℕ, ◌+◌, String, Bool, true, false, not, ◌&&◌, ◌||◌, List, [], ◌∷◌, ◌++◌, Str, codes, str_eq,
  is_empty, if◌then◌else◌,
}
use trustflow.Base.Int.{leb_ℤ}
use trustflow.Error.{Result, ok, Arg, text, number, enforce, yacl_throw, ◌>>=◌, ◌>>◌}
use trustflow.External.{External}
use trustflow.Verification.Stoi.{Stoi, value, invalid_argument, out_of_range, stoi}

-- The fields of `UnifiedAttestationAttributes` that the verifiers set or compare.
pub record Attributes : Type 0 where
  pub str_tee_platform : Str
  pub hex_platform_hw_version : Str
  pub hex_platform_sw_version : Str
  pub hex_secure_flags : Str
  pub hex_platform_measurement : Str
  pub hex_boot_measurement : Str
  pub hex_ta_measurement : Str
  pub hex_ta_dyn_measurement : Str
  pub hex_signer : Str
  pub hex_prod_id : Str
  pub str_min_isvsvn : Str
  pub bool_debug_disabled : Str
  pub hex_user_data : Str
  pub hex_hash_or_pem_pubkey : Str
  pub hex_nonce : Str

-- A message that no field is set in yet.
abbrev pub no_attributes : Attributes
no_attributes = record {
  str_tee_platform = [];
  hex_platform_hw_version = [];
  hex_platform_sw_version = [];
  hex_secure_flags = [];
  hex_platform_measurement = [];
  hex_boot_measurement = [];
  hex_ta_measurement = [];
  hex_ta_dyn_measurement = [];
  hex_signer = [];
  hex_prod_id = [];
  str_min_isvsvn = [];
  bool_debug_disabled = [];
  hex_user_data = [];
  hex_hash_or_pem_pubkey = [];
  hex_nonce = [];
}

-- `if (!step) return false;` and then the rest.
abbrev pub check : Result (Bool × Str) → (Str → Result (Bool × Str)) → Result (Bool × Str)
check step rest = do
  (result, error_msg) ← step
  if result then rest error_msg else ok (false, error_msg)

abbrev same : Bool → Bool → Bool
same true b = b
same false b = not b

module _ (X : External) where
  pub mismatch : Str → Str → Str → Str
  mismatch name actual expected =
      X.format "{} is not match: actual {} vs expected {}."
        (text name ∷ text actual ∷ text expected ∷ [])

  -- The result and `*error_msg`, which the caller always passes.
  unfoldable pub is_str_equal : Str → Str → Str → Bool → Str → Result (Bool × Str)
  is_str_equal name actual_value expected_value required error_msg = do
    let result =
        (is_empty expected_value && not required)
        || X.equals_ignore_case expected_value actual_value
    let error_msg = if result then error_msg else mismatch name actual_value expected_value
    enforce result "{} is not match: actual {} vs expected {}."
        (text name ∷ text actual_value ∷ text expected_value ∷ [])
    ok (result, error_msg)

  unfoldable pub str_to_boolean : Str → Bool
  str_to_boolean bool_str =
      X.equals_ignore_case bool_str (codes "true") || str_eq bool_str (codes "1")

  unfoldable pub is_bool_equal : Str → Str → Str → Bool → Str → Result (Bool × Str)
  is_bool_equal name actual_value expected_value required error_msg =
      let result =
        (is_empty expected_value && not required)
        || same (str_to_boolean expected_value) (str_to_boolean actual_value) in
      ok (result, (if result then error_msg else mismatch name actual_value expected_value))

  -- `std::stoi(expected_value) <= std::stoi(actual_value)` with its two handlers. Which of the two
  -- calls is made first is not fixed: here it is the first one.
  compare_stoi : Stoi → Stoi → Str → Str → Str → Str → Bool × Str
  compare_stoi (value e) (value a) name actual_value expected_value error_msg =
      let result = leb_ℤ e a in
      (
        result,
        (if result
            then error_msg
            else X.format "{} is not match: actual {} is not large than expected {}."
                (text name ∷ text actual_value ∷ text expected_value ∷ [])),
      )
  compare_stoi (value e) invalid_argument name actual_value expected_value error_msg = (
    false,
    X.format "std::invalid_argument, actual {} or expected {}"
        (text actual_value ∷ text expected_value ∷ []),
  )
  compare_stoi (value e) out_of_range name actual_value expected_value error_msg = (
    false,
    X.format "std::out_of_range, actual {} or expected {}"
        (text actual_value ∷ text expected_value ∷ []),
  )
  compare_stoi invalid_argument a name actual_value expected_value error_msg = (
    false,
    X.format "std::invalid_argument, actual {} or expected {}"
        (text actual_value ∷ text expected_value ∷ []),
  )
  compare_stoi out_of_range a name actual_value expected_value error_msg = (
    false,
    X.format "std::out_of_range, actual {} or expected {}"
        (text actual_value ∷ text expected_value ∷ []),
  )

  unfoldable pub is_greater_equal_than : Str → Str → Str → Bool → Str → Result (Bool × Str)
  unfolding compare_stoi
  is_greater_equal_than name actual_value expected_value required error_msg =
      if is_empty expected_value && not required
      then ok (true, error_msg)
      else ok (
          compare_stoi (stoi expected_value) (stoi actual_value) name actual_value expected_value
            error_msg)

  -- The comparison of the public keys, made only if one is expected.
  unfoldable pub pubkey_is_match : Str → Str → Str → Result (Bool × Str)
  pubkey_is_match actual expected error_msg =
      if is_empty expected
      then ok (true, error_msg)
      else is_str_equal (codes "PUBLICKEY") actual (X.bytes_to_hex_string (X.sha256 expected)) false
          error_msg

  -- The comparisons up to the product id.
  unfoldable pub identity_is_match : Attributes → Attributes → Str → Result (Bool × Str)
  identity_is_match a e error_msg =
      check (is_str_equal (codes "PLATFORM") a.str_tee_platform e.str_tee_platform false error_msg)
        λ error_msg.
          check
            (is_str_equal (codes "PLATFORMHWVERSION") a.hex_platform_hw_version
              e.hex_platform_hw_version false error_msg)
            λ error_msg.
              check
                (is_str_equal (codes "PLATFORMSWVERSION") a.hex_platform_sw_version
                  e.hex_platform_sw_version false error_msg)
                λ error_msg.
                  check
                    (is_str_equal (codes "SECUREFLAGS") a.hex_secure_flags e.hex_secure_flags false
                      error_msg)
                    λ error_msg.
                      check
                        (is_str_equal (codes "MRPLATFORM") a.hex_platform_measurement
                          e.hex_platform_measurement false error_msg)
                        λ error_msg.
                          check
                            (is_str_equal (codes "MRBOOT") a.hex_boot_measurement
                              e.hex_boot_measurement false error_msg)
                            λ error_msg.
                              check
                                (is_str_equal (codes "MRTRUSTAPP") a.hex_ta_measurement
                                  e.hex_ta_measurement false error_msg)
                                λ error_msg.
                                  check
                                    (is_str_equal (codes "MRTRUSTAPPDYN") a.hex_ta_dyn_measurement
                                      e.hex_ta_dyn_measurement false error_msg)
                                    λ error_msg.
                                      check
                                        (is_str_equal (codes "SIGNER") a.hex_signer e.hex_signer
                                          false error_msg)
                                        λ error_msg.
                                          is_str_equal (codes "PRODID") a.hex_prod_id e.hex_prod_id
                                            false error_msg

  unfoldable pub attrs_is_match : Attributes → Attributes → Str → Result (Bool × Str)
  attrs_is_match a e error_msg = check (identity_is_match a e error_msg) λ error_msg.
      check
        (is_greater_equal_than (codes "ISVSVN") a.str_min_isvsvn e.str_min_isvsvn false error_msg)
        λ error_msg.
          check
            (is_bool_equal (codes "DEBUGDISABLED") a.bool_debug_disabled e.bool_debug_disabled false
              error_msg)
            λ error_msg.
              check
                (is_str_equal (codes "USERDATA") a.hex_user_data e.hex_user_data false error_msg)
                λ error_msg.
                  check
                    (pubkey_is_match a.hex_hash_or_pem_pubkey e.hex_hash_or_pem_pubkey error_msg)
                    λ error_msg.
                      is_str_equal (codes "NONCE") a.hex_nonce e.hex_nonce false error_msg

  -- The loop over `policy.main_attributes`, from index `i` on, with the messages so far.
  unfoldable pub verify_attributes_from :
      Attributes → List Attributes → ℕ → List Str → Result (Unit {0})
  verify_attributes_from actual [] i error_msgs =
      yacl_throw "Verify attributes failed:\n {}." (text (X.join error_msgs "\n") ∷ [])
  verify_attributes_from actual (expected ∷ more) i error_msgs = do
    (matched, error_msg) ← attrs_is_match actual expected []
    if matched
        then ok tt
        else verify_attributes_from actual more (i + 1)
            (error_msgs ++ (X.format "#{}: {}" (number i ∷ text error_msg ∷ []) ∷ []))

  -- `policy` is its list of `main_attributes`, the one field that is read.
  unfoldable pub verify_attributes : Attributes → List Attributes → Result (Unit {0})
  unfolding verify_attributes_from
  verify_attributes actual policy = verify_attributes_from actual policy 0 []
