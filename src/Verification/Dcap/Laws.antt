-- ===== src/Verification/Dcap/Laws.antt =====
-- When a platform is accepted.
use trustflow.Base.{
  ℕ, ◌≡◌, ◌↔◌, arith, Str, refl, is_empty, false, codes, ◌≤◌, Bytes, take, drop, le→leb, length,
  ◌+◌, ◌%◌, ◌^◌, ==_iff,
}
use trustflow.Error.{ok, with_value}
use trustflow.Attestation.{Collateral, view}
use trustflow.External.{External}
use trustflow.Verification.Dcap.{
  DcapVerifier, CollateralData, QvResult, result_ok, config_needed, out_of_date,
  out_of_date_config_needed, sw_hardening_needed, config_and_sw_hardening_needed, invalid_signature,
  revoked, unspecified, other, Qvl, set_collateral, initialize_collateral_data, check_result,
  verify_platform, halves,
}

-- The results that the `switch` lets pass.
abbrev pub IsAccepted : QvResult → Type 0
IsAccepted result_ok = Unit
IsAccepted config_needed = Unit
IsAccepted out_of_date = Unit
IsAccepted out_of_date_config_needed = Unit
IsAccepted sw_hardening_needed = Unit
IsAccepted config_and_sw_hardening_needed = Unit
IsAccepted _ = ⊥

check_result_iff : (Q : Qvl) (r : QvResult) → (check_result Q r ≡ ok tt) ↔ IsAccepted r
unfolding check_result
check_result_iff Q result_ok = (λ _. tt, λ _. refl)
check_result_iff Q config_needed = (λ _. tt, λ _. refl)
check_result_iff Q out_of_date = (λ _. tt, λ _. refl)
check_result_iff Q out_of_date_config_needed = (λ _. tt, λ _. refl)
check_result_iff Q sw_hardening_needed = (λ _. tt, λ _. refl)
check_result_iff Q config_and_sw_hardening_needed = (λ _. tt, λ _. refl)
check_result_iff Q invalid_signature = (λ h. cc, λ a. absurd a)
check_result_iff Q revoked = (λ h. cc, λ a. absurd a)
check_result_iff Q unspecified = (λ h. cc, λ a. absurd a)
check_result_iff Q other = (λ h. cc, λ a. absurd a)

-- A member of the collateral as the library is given it.
abbrev pub sized : Str → Str × ℕ
sized s = (s, (length s + 1) % 2 ^ 32)

abbrev pub given : Collateral → CollateralData
given c = record {
  version = c.version;
  pck_crl_issuer_chain = sized c.pck_crl_issuer_chain;
  root_ca_crl = sized c.root_ca_crl;
  pck_crl = sized c.pck_crl;
  tcb_info_issuer_chain = sized c.tcb_info_issuer_chain;
  tcb_info = sized c.tcb_info;
  qe_identity_issuer_chain = sized c.qe_identity_issuer_chain;
  qe_identity = sized c.qe_identity;
}

-- All seven members are there.
pub record IsComplete (c : Collateral) : Type 0 where
  pub some_pck_crl_issuer_chain : is_empty c.pck_crl_issuer_chain ≡ false
  pub some_root_ca_crl : is_empty c.root_ca_crl ≡ false
  pub some_pck_crl : is_empty c.pck_crl ≡ false
  pub some_tcb_info_issuer_chain : is_empty c.tcb_info_issuer_chain ≡ false
  pub some_tcb_info : is_empty c.tcb_info ≡ false
  pub some_qe_identity_issuer_chain : is_empty c.qe_identity_issuer_chain ≡ false
  pub some_qe_identity : is_empty c.qe_identity ≡ false

set_collateral_some : (n s : Str) → is_empty s ≡ false → set_collateral n s ≡ ok (sized s)
unfolding set_collateral
set_collateral_some n s h = rw h

set_collateral_inv :
    (n s : Str) {d : Str × ℕ} → set_collateral n s ≡ ok d → (is_empty s ≡ false) × (d ≡ sized s)
unfolding set_collateral
set_collateral_inv n s h = (ground arith, ground arith)

initialize_complete : (c : Collateral) → IsComplete c → initialize_collateral_data c ≡ ok (given c)
unfolding initialize_collateral_data
initialize_complete c h = rw (
  set_collateral_some (codes "pck_crl_issuer_chain") c.pck_crl_issuer_chain
      h.some_pck_crl_issuer_chain,
  set_collateral_some (codes "root_ca_crl") c.root_ca_crl h.some_root_ca_crl,
  set_collateral_some (codes "pck_crl") c.pck_crl h.some_pck_crl,
  set_collateral_some (codes "tcb_info_issuer_chain") c.tcb_info_issuer_chain
      h.some_tcb_info_issuer_chain,
  set_collateral_some (codes "tcb_info") c.tcb_info h.some_tcb_info,
  set_collateral_some (codes "qe_identity_issuer_chain") c.qe_identity_issuer_chain
      h.some_qe_identity_issuer_chain,
  set_collateral_some (codes "qe_identity") c.qe_identity h.some_qe_identity,
)

initialize_inv :
    (c : Collateral) {d : CollateralData} → initialize_collateral_data c ≡ ok d → IsComplete c
unfolding initialize_collateral_data
initialize_inv c h =
    with_value (set_collateral (codes "pck_crl_issuer_chain") c.pck_crl_issuer_chain)
      (λ x e. ground arith) (λ e. ground arith)
      λ _ e1.
        with_value (set_collateral (codes "root_ca_crl") c.root_ca_crl) (λ x e. ground arith)
          (λ e. ground arith)
          λ _ e2.
            with_value (set_collateral (codes "pck_crl") c.pck_crl) (λ x e. ground arith)
              (λ e. ground arith)
              λ _ e3.
                with_value (set_collateral (codes "tcb_info_issuer_chain") c.tcb_info_issuer_chain)
                  (λ x e. ground arith) (λ e. ground arith)
                  λ _ e4.
                    with_value (set_collateral (codes "tcb_info") c.tcb_info) (λ x e. ground arith)
                      (λ e. ground arith)
                      λ _ e5.
                        with_value
                          (set_collateral (codes "qe_identity_issuer_chain")
                            c.qe_identity_issuer_chain)
                          (λ x e. ground arith) (λ e. ground arith)
                          λ _ e6.
                            with_value (set_collateral (codes "qe_identity") c.qe_identity)
                              (λ x e. ground arith) (λ e. ground arith)
                              λ _ e7. record {
                                some_pck_crl_issuer_chain = (set_collateral_inv _ _ e1).0;
                                some_root_ca_crl = (set_collateral_inv _ _ e2).0;
                                some_pck_crl = (set_collateral_inv _ _ e3).0;
                                some_tcb_info_issuer_chain = (set_collateral_inv _ _ e4).0;
                                some_tcb_info = (set_collateral_inv _ _ e5).0;
                                some_qe_identity_issuer_chain = (set_collateral_inv _ _ e6).0;
                                some_qe_identity = (set_collateral_inv _ _ e7).0;
                              }

-- What the quote verification library answers for the quote, given the collateral.
abbrev pub answer : Qvl → ℕ → DcapVerifier → ℕ × QvResult
answer Q time v =
    Q.verify_quote v.quote (given v.collateral) time Q.get_quote_supplemental_data_size.1

abbrev pub Passes : Qvl → ℕ → DcapVerifier → Type 0
Passes Q time v =
    (Q.get_quote_supplemental_data_size.0 ≡ Q.success)
    × (Q.get_quote_supplemental_data_size.1 ≡ Q.supplemental_size)
    × ((answer Q time v).0 ≡ Q.success)
    × IsAccepted (answer Q time v).1

platform-Passes :
    (Q : Qvl) (time : ℕ) (v : DcapVerifier) {d : CollateralData}
    → initialize_collateral_data v.collateral ≡ ok d
    → verify_platform Q time v ≡ ok tt
    → Passes Q time v
unfolding verify_platform
platform-Passes Q time v e h =
    let whole = initialize_complete v.collateral (initialize_inv v.collateral e) in
    let run = rw whole at h in
    (
      ground arith,
      ground arith,
      ground arith,
      (check_result_iff Q (answer Q time v).1).0 (ground arith),
    )

Passes-platform :
    (Q : Qvl) (time : ℕ) (v : DcapVerifier)
    → IsComplete v.collateral
    → Passes Q time v
    → verify_platform Q time v ≡ ok tt
unfolding verify_platform
Passes-platform Q time v c (ret, size, dcap_ret, result) = rw (
  initialize_complete v.collateral c,
  (==_iff _ _).1 ret,
  (==_iff _ _).1 size,
  (==_iff _ _).1 dcap_ret,
  (check_result_iff Q (answer Q time v).1).1 result,
)

collateral_given :
    (Q : Qvl) (time : ℕ) (v : DcapVerifier)
    → verify_platform Q time v ≡ ok tt
    → (d : CollateralData) × (initialize_collateral_data v.collateral ≡ ok d)
unfolding verify_platform
collateral_given Q time v h =
    with_value (initialize_collateral_data v.collateral) (λ x e. ground arith) (λ e. ground arith)
      λ d e. (d, e)

-- A platform is accepted if and only if all seven members of the collateral are there, the library
-- has supplemental data of the size that the header declares, and, given the members with their
-- sizes, their terminators counted, it checks the quote with a result that is neither an invalid
-- signature, nor a revocation, nor unspecified, nor unknown.
pub verify_platform-Passes :
    (Q : Qvl) (time : ℕ) (v : DcapVerifier)
    → (verify_platform Q time v ≡ ok tt) ↔ (IsComplete v.collateral × Passes Q time v)
verify_platform-Passes Q time v = (
  λ h.
      let (d, e) = collateral_given Q time v h in
      (initialize_inv v.collateral e, platform-Passes Q time v e h),
  λ (c, p). Passes-platform Q time v c p,
)

pub view_inside :
    (b : Bytes) (offset size : ℕ)
    → offset + size ≤ length b
    → view b offset size ≡ ok (take size (drop offset b))
unfolding view
view_inside b offset size h = rw (le→leb (offset + size) (length b) h)

pub halves_inside :
    (X : External) (Q : Qvl) (quote : Bytes) (offset : ℕ)
    → Q.report_data_size ≡ 64
    → offset + 64 ≤ length quote
    → halves X Q quote offset
      ≡ ok (
        X.bytes_to_hex_string (take 32 (drop offset quote)),
        X.bytes_to_hex_string (take 32 (drop (offset + 32) quote)),
      )
unfolding halves
halves_inside X Q quote offset size h = rw (
  size,
  view_inside quote offset 32 (omega arith),
  view_inside quote (offset + 32) 32 (omega arith),
)
