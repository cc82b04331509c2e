-- ===== src/Verification/Attributes/Policy.antt =====
-- What an alternative of a policy asks of each attribute.
use trustflow.Base.{◌≡◌, ◌⊎◌, Bool, true, false, [], Str, map}
use trustflow.Base.Int.{ℤ, ◌≤ℤ◌}
use trustflow.Error.{Result, ok, throw, undefined}
use trustflow.External.{External, lower}
use trustflow.Verification.Stoi.{value, stoi}
use trustflow.Verification.Attributes.{Attributes, str_to_boolean}

abbrev pub throws {ℓ} : {A : Type ℓ} → Result A → Bool
throws (ok a) = false
throws (throw x) = true
throws undefined = false

-- An empty expectation allows any value; any other one the same text up to the case of letters.
abbrev pub Allows : Str → Str → Type 0
Allows expected actual = (expected ≡ []) ⊎ (map lower expected ≡ map lower actual)

-- The security version is at least the expected one, and both are decimal `int`s.
abbrev pub AllowsSvn : Str → Str → Type 0
AllowsSvn expected actual =
    (expected ≡ [])
    ⊎ ((m : ℤ) × (n : ℤ) × (stoi expected ≡ value m) × (stoi actual ≡ value n) × (m ≤ℤ n))

pub record IdentityMatches (a e : Attributes) : Type 0 where
  pub platform : Allows e.str_tee_platform a.str_tee_platform
  pub platform_hw_version : Allows e.hex_platform_hw_version a.hex_platform_hw_version
  pub platform_sw_version : Allows e.hex_platform_sw_version a.hex_platform_sw_version
  pub secure_flags : Allows e.hex_secure_flags a.hex_secure_flags
  pub platform_measurement : Allows e.hex_platform_measurement a.hex_platform_measurement
  pub boot_measurement : Allows e.hex_boot_measurement a.hex_boot_measurement
  pub ta_measurement : Allows e.hex_ta_measurement a.hex_ta_measurement
  pub ta_dyn_measurement : Allows e.hex_ta_dyn_measurement a.hex_ta_dyn_measurement
  pub signer : Allows e.hex_signer a.hex_signer
  pub prod_id : Allows e.hex_prod_id a.hex_prod_id

module _ (X : External) where
  -- Both say "true" or "1", or neither does.
  abbrev pub AllowsFlag : Str → Str → Type 0
  AllowsFlag expected actual =
      (expected ≡ []) ⊎ (str_to_boolean X expected ≡ str_to_boolean X actual)

  -- The report has the hash of the expected key.
  abbrev pub AllowsKey : Str → Str → Type 0
  AllowsKey expected actual =
      (expected ≡ []) ⊎ (map lower (X.bytes_to_hex_string (X.sha256 expected)) ≡ map lower actual)

  pub record DataMatches (a e : Attributes) : Type 0 where
    pub user_data : Allows e.hex_user_data a.hex_user_data
    pub pubkey : AllowsKey e.hex_hash_or_pem_pubkey a.hex_hash_or_pem_pubkey
    pub nonce : Allows e.hex_nonce a.hex_nonce

  -- All fifteen attributes are as the alternative `e` asks.
  pub record Matches (a e : Attributes) : Type 0 where
    pub identity : IdentityMatches a e
    pub isvsvn : AllowsSvn e.str_min_isvsvn a.str_min_isvsvn
    pub debug_disabled : AllowsFlag e.bool_debug_disabled a.bool_debug_disabled
    pub report_data : DataMatches a e

-- The version or the debug flag is refused, and all that is compared before is allowed.
abbrev pub Skips : External → Attributes → Attributes → Type 0
Skips X a e =
    IdentityMatches a e
    × ¬ (
        AllowsSvn e.str_min_isvsvn a.str_min_isvsvn
        × AllowsFlag X e.bool_debug_disabled a.bool_debug_disabled)

-- The first attribute that is refused is a text.
abbrev pub Aborts : External → Attributes → Attributes → Type 0
Aborts X a e =
    (¬ (IdentityMatches a e))
    ⊎ (IdentityMatches a e
        × AllowsSvn e.str_min_isvsvn a.str_min_isvsvn
        × AllowsFlag X e.bool_debug_disabled a.bool_debug_disabled
        × ¬ (DataMatches X a e))
