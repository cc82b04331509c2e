-- ===== src/Verification/Attributes/Tests.antt =====
-- A concrete library, and the theorems at concrete policies.
use trustflow.Base.Decimal.{to_string}
use trustflow.Verification.Attributes.Svn.{is_greater_equal_than-to_string}
use trustflow.Base.{◌≤◌, false, arith, ◌≡◌, ◌↔◌, inl, inr, refl, true, [], ◌∷◌, codes, str_eq}
use trustflow.Error.{ok}
use trustflow.External.Sample.{sample, sample-IsExternal}
use trustflow.Verification.Stoi.{stoi}
use trustflow.Verification.Attributes.{
  Attributes, no_attributes, attrs_is_match, identity_is_match, is_str_equal, is_greater_equal_than,
  is_bool_equal, pubkey_is_match, str_to_boolean, verify_attributes,
}
use trustflow.Verification.Attributes.Policy.{throws, Aborts}
use trustflow.Verification.Attributes.Laws.{
  Accepts, verify_attributes_iff, verify_attributes-Aborts,
}

-- A report of a debug enclave with security version 3, and three alternatives.
abbrev report : Attributes
report = record no_attributes {
  str_tee_platform = codes "SGX_DCAP";
  hex_ta_measurement = codes "ab";
  str_min_isvsvn = codes "3";
  bool_debug_disabled = codes "false";
}

abbrev newer : Attributes
newer = record no_attributes { str_min_isvsvn = codes "4" }

abbrev fitting : Attributes
fitting = record no_attributes { hex_ta_measurement = codes "AB"; str_min_isvsvn = codes " 2x" }

abbrev other_enclave : Attributes
other_enclave = record no_attributes { hex_ta_measurement = codes "cd" }

accepted : verify_attributes sample report (newer ∷ fitting ∷ []) ≡ ok tt
unfolding verify_attributes attrs_is_match identity_is_match is_str_equal is_greater_equal_than
    is_bool_equal pubkey_is_match str_to_boolean stoi str_eq
accepted = refl

verify_attributes_iff_example :
    (verify_attributes sample report (newer ∷ fitting ∷ []) ≡ ok tt)
    ↔ Accepts sample report (newer ∷ fitting ∷ [])
verify_attributes_iff_example =
    verify_attributes_iff sample sample-IsExternal report (newer ∷ fitting ∷ [])

refused : Aborts sample report other_enclave
refused = inl (λ h. elim (h.ta_measurement) [ inl e ↦ cc | inr e ↦ ground arith ])

-- The second alternative matches the report, and is not tried.
verify_attributes-Aborts_example :
    throws (verify_attributes sample report (other_enclave ∷ fitting ∷ [])) ≡ true
verify_attributes-Aborts_example =
    verify_attributes-Aborts sample sample-IsExternal report other_enclave (fitting ∷ []) refused

is_greater_equal_than-to_string_example :
    (is_greater_equal_than sample (codes "ISVSVN") (to_string 12) (to_string 7) false []
      ≡ ok (true, []))
    ↔ (7 ≤ 12)
is_greater_equal_than-to_string_example =
    is_greater_equal_than-to_string sample (codes "ISVSVN") [] 12 7 sample-IsExternal (omega arith)
      (omega arith)
