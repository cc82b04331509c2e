-- ===== src/Verification/Csv/Report/Laws.antt =====
-- The last statement of `ParseUnifiedReport` reads past the end of a vector.
use trustflow.Base.{◌+◌, ◌≤◌, ◌<◌, ◌≡◌, ap, leb, false, arith, Bytes, length, drop}
use trustflow.Error.{ok, undefined, with_value}
use trustflow.External.{External}
use trustflow.Attestation.{part, view}
use trustflow.Verification.Attributes.{Attributes}
use trustflow.Verification.Csv.Layout.{Layout}
use trustflow.Verification.Csv.Mask.Laws.{length-retrieve}
use trustflow.Verification.Csv.Report.{CsvVerifier, unmask, parse_fields, parse_unified_report}

module _ (L : Layout) (X : External) (v : CsvVerifier) where
  short :
      (attrs : Attributes) (r : Attributes × Bytes)
      → parse_fields L X v attrs ≡ ok r
      → length r.1 ≤ L.hash_len
  unfolding parse_fields
  short attrs r h =
      with_value (unmask L X v (part v.quote L.vm_id) 1 L.vm_id_size) (λ x e. ground arith)
        (λ e. ground arith)
        λ _ e1.
          with_value (unmask L X v (part v.quote L.vm_version) 1 L.vm_version_size)
            (λ x e. ground arith) (λ e. ground arith)
            λ _ e2.
              with_value (unmask L X v (part v.quote L.user_data) 1 L.hash_len)
                (λ x e. ground arith) (λ e. ground arith)
                λ user_data e3.
                  with_value
                    (unmask L X v (drop L.hash_len (part v.quote L.user_data)) 1 L.hash_len)
                    (λ x e. ground arith) (λ e. ground arith)
                    λ _ e4.
                      with_value
                        (unmask L X v (part v.quote L.mnonce) 1 L.guest_attestation_nonce_size)
                        (λ x e. ground arith) (λ e. ground arith)
                        λ _ e5.
                          with_value (unmask L X v (part v.quote L.measure) L.measure.size 1)
                            (λ x e. ground arith) (λ e. ground arith)
                            λ _ e6.
                              let same : r.1 ≡ user_data = ground arith in
                              omega (arith, ap length same, length-retrieve _ _ _ _ e3)

  -- If the statements before it succeed, the last one, which reads the second half of a vector of
  -- `HASH_LEN` bytes, is undefined: no quote has its attributes parsed.
  pub parse_unified_report_undefined :
      0 < L.hash_len
      → (attrs : Attributes) (r : Attributes × Bytes) → parse_fields L X v attrs ≡ ok r
      → parse_unified_report L X v attrs ≡ undefined
  unfolding parse_unified_report view
  parse_unified_report_undefined pos attrs r h =
      let le = short attrs r h in
      let past : leb (L.hash_len + L.hash_len) (length r.1) ≡ false = ground arith in rw (h, past)
