-- ===== src/Evidence/Judged.antt =====
-- What both of Intel's platforms share: the wrapper's verdict on a verifier that is set up, and the report data in a quote.
use trustflow.Base.{
  ℕ, ◌+◌, ◌<◌, ◌≡◌, ◌↔◌, refl, sym, ap, ◌∙◌, arith, some, List, [], ◌++◌, Bytes, Str, length, take,
  drop, take-append, drop-append, append_assoc, length-append, All, IsByte,
}
use trustflow.Error.{
  Result, ok, throw, undefined, argument_error, invalid_format, yacl_exception, std_exception,
  ◌>>=◌,
}
use trustflow.External.{External, IsExternal}
use trustflow.Attestation.{json2pb}
use trustflow.Verification.Attributes.{Attributes, no_attributes}
use trustflow.Verification.Attributes.Laws.{Accepts, verify_attributes_iff}
use trustflow.Verification.Dcap.{DcapVerifier, Qvl, verify_platform}
use trustflow.Verification.Dcap.Laws.{IsComplete, Passes, verify_platform-Passes}
use trustflow.Verification.Factory.{Verifier, Creator, create, creator_of, verify_report}
use trustflow.Verification.Factory.Laws.{verify_report_iff}
use trustflow.Verification.Wrapper.{
  Texts, Backend, handle, success_status, catch_status, create_factory, run_verify,
  attestation_report_verify,
}
use trustflow.Generation.{GenParams, prepare_report_data}
use trustflow.Generation.Laws.{checked, filled}
use trustflow.Generation.Intel.{Sizes}

-- Only a body of `try` that ends well gives the status of success.
caught_success :
    (T : Texts) (r : Result (Unit {0})) → (catch_status T r ≡ some success_status) ↔ (r ≡ ok tt)
unfolding catch_status handle
caught_success T (ok u) = (λ h. refl, λ h. refl)
caught_success T undefined = (λ h. cc, λ h. cc)
caught_success T (throw (argument_error m)) = (λ h. absurd (ground arith), λ h. cc)
caught_success T (throw (invalid_format m)) = (λ h. absurd (ground arith), λ h. cc)
caught_success T (throw (yacl_exception m)) = (λ h. absurd (ground arith), λ h. cc)
caught_success T (throw (std_exception m)) = (λ h. absurd (ground arith), λ h. cc)

module _ (X : External) (x : IsExternal X) (V : Qvl) (time : ℕ) (v : DcapVerifier)
    (verifier : Verifier) (shown : Attributes)
    (platform : verifier.verify_platform ≡ verify_platform V time v)
    (fields : verifier.parse_unified_report no_attributes ≡ ok shown)
    (policy : List Attributes) where
  -- The platform passes, and the policy accepts what the quote shows.
  abbrev pub IsGood : Type 0
  IsGood = IsComplete v.collateral × Passes V time v × Accepts X shown policy

  verified : (verify_report X verifier policy ≡ ok tt) ↔ IsGood
  verified =
      let whole = verify_report_iff X verifier policy in
      let passes = verify_platform-Passes V time v in
      let match = verify_attributes_iff X x shown policy in
      (
        λ h.
            (let (p, (attrs, q, r)) = whole.0 h in
              let (complete, passed) = passes.0 (sym platform ∙ p) in
              let same : attrs ≡ shown = cc (fields, q) in
              (complete, passed, match.0 (rw same at r))),
        λ (complete, passed, accepts).
            whole.1 (platform ∙ passes.1 (complete, passed), (shown, fields, match.1 accepts)),
      )

  module _ (T : Texts) (B : Backend) (creator : Creator) (json policy_json : Str)
      (found : creator_of (create_factory B) v.report.str_tee_platform ≡ some creator)
      (made : creator v.report ≡ ok verifier) (e1 : B.report_of_json json ≡ some v.report)
      (e2 : B.policy_of_json policy_json ≡ some policy) where
    created : run_verify X T B json policy_json ≡ verify_report X verifier policy
    unfolding run_verify create json2pb
    created = rw (e2, json2pb, e1, ◌>>=◌, found, made)

    pub wrapper_judges :
        (attestation_report_verify X T B json policy_json ≡ some success_status) ↔ IsGood
    unfolding attestation_report_verify
    wrapper_judges =
        let caught = caught_success T (run_verify X T B json policy_json) in
        (λ s. verified.0 (sym created ∙ caught.0 s), λ t. caught.1 (created ∙ verified.1 t))

-- The report data with the sizes of Intel's headers.
pub prepared :
    (X : External) (S : Sizes) (p : GenParams) (d : Bytes)
    → S.sgx_hash_size ≡ 32
    → S.report_data_size ≡ 64
    → prepare_report_data X S.sgx_hash_size S.report_data_size p ≡ ok d
    → prepare_report_data X 32 64 p ≡ ok d
prepared X S p d hash_size data_size e = rw (hash_size, data_size) at e

-- The halves of the report data, in the middle of a quote.
take_half :
    (front u h back : Bytes)
    → length u ≡ 32
    → take 32 (drop (length front) (front ++ ((u ++ h) ++ back))) ≡ u
take_half front u h back len =
    rw (drop-append front ((u ++ h) ++ back), append_assoc u h back)
      (rw len at (take-append u (h ++ back)))

drop_half :
    (front u h back : Bytes)
    → length u ≡ 32
    → length h ≡ 32
    → take 32 (drop (length front + 32) (front ++ ((u ++ h) ++ back))) ≡ h
drop_half front u h back lu lh =
    let size : length (front ++ u) ≡ length front + 32 = omega (arith, length-append front u) in
    let whole : front ++ ((u ++ h) ++ back) ≡ (front ++ u) ++ (h ++ back) = simp append_assoc in
    rw (whole, ← size, drop-append (front ++ u) (h ++ back)) (rw lh at (take-append h back))

module _ (X : External) (x : IsExternal X) (u : Bytes) (p : GenParams) (bs : All IsByte u)
    (len : length u ≡ 32) (nonce : p.report_hex_nonce ≡ [])
    (data_eq : p.hex_user_data ≡ X.bytes_to_hex_string u) (key : 0 < length p.pem_public_key) where
  abbrev pub key_hash : Bytes
  key_hash = X.sha256 (X.hex_string_to_bytes p.pem_public_key)

  filled_data : (d : Bytes) → prepare_report_data X 32 64 p ≡ ok d → d ≡ u ++ key_hash
  unfolding prepare_report_data
  filled_data d e =
      let made : prepare_report_data X 32 64 p ≡ ok (u ++ key_hash) =
        rw (checked X x u p len nonce data_eq, filled X x u p bs len nonce data_eq key) in
      cc (e, made)

  pub filled_size : (d : Bytes) → prepare_report_data X 32 64 p ≡ ok d → length d ≡ 64
  filled_size d e = omega (
    arith,
    ap length (filled_data d e),
    length-append u key_hash,
    x.length-sha256 (X.hex_string_to_bytes p.pem_public_key),
    len,
  )

  -- User data and the hash of the key, as they are in a quote with the report data at a place.
  pub halves_shown :
      (d front back quote : Bytes) (place : ℕ)
      → prepare_report_data X 32 64 p ≡ ok d
      → quote ≡ front ++ (d ++ back)
      → length front ≡ place
      → (X.bytes_to_hex_string (take 32 (drop place quote)) ≡ p.hex_user_data)
        × (X.bytes_to_hex_string (take 32 (drop (place + 32) quote))
            ≡ X.bytes_to_hex_string key_hash)
  halves_shown d front back quote place e whole at =
      let shows : quote ≡ front ++ ((u ++ key_hash) ++ back) =
        whole ∙ ap (λ e. front ++ (e ++ back)) (filled_data d e) in
      let user : take 32 (drop place quote) ≡ u =
        rw (shows, ← at) (take_half front u key_hash back len) in
      let hash : take 32 (drop (place + 32) quote) ≡ key_hash =
        rw (shows, ← at) (drop_half front u key_hash back len (x.length-sha256 _)) in
      (ap X.bytes_to_hex_string user ∙ sym data_eq, ap X.bytes_to_hex_string hash)
