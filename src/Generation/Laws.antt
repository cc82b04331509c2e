-- ===== src/Generation/Laws.antt =====
-- The report data that the generators fill is what the verifiers show.
use trustflow.Base.{
  ℕ, ◌+◌, ◌<◌, ◌≡◌, refl, ap, ◌∙◌, arith, leb, le→leb, true, false, is_empty, Bytes, Str, [], ◌∷◌,
  ◌++◌, length, drop, replicate, length-append, append_assoc, append-nil, drop-append, take-append,
  All, IsByte,
}
use trustflow.Error.{ok, ◌>>=◌}
use trustflow.Attestation.{view}
use trustflow.External.{External, IsExternal}
use trustflow.Generation.{
  GenParams, memcpy, memcpy_some, check_params, fill_report_data, prepare_report_data,
}
use trustflow.Verification.Dcap.{Qvl, halves}
use trustflow.Collateral.Laws.{view_middle}

memcpy_middle :
    (front old back src : Bytes)
    → length old ≡ length src
    → memcpy (front ++ (old ++ back)) (length front) src ≡ ok (front ++ (src ++ back))
unfolding memcpy
memcpy_middle front old back src e =
    let size = length-append front old in
    let whole = length-append (front ++ old) back in
    let fits : leb (length front + length src) (length (front ++ (old ++ back))) ≡ true =
      le→leb _ _ (omega (arith, length-append front (old ++ back), length-append old back)) in
    let rest : drop (length front + length src) (front ++ (old ++ back)) ≡ back =
      rw (← append_assoc front old back, ← e, ← size) (drop-append (front ++ old) back) in
    rw (fits, take-append front (old ++ back), rest, append_assoc front src back)

not_empty : (s : Str) → 0 < length s → is_empty s ≡ false
not_empty [] h = absurd (omega arith)
not_empty (c ∷ s) h = refl

abbrev zeros : Bytes
zeros = replicate 32 0

-- What is there is copied.
pub memcpy_there :
    (s : Str) (buf : Bytes) (offset : ℕ) (src : Bytes)
    → 0 < length s
    → memcpy_some (is_empty s) buf offset src ≡ memcpy buf offset src
unfolding memcpy_some
memcpy_there s buf offset src h = rw (not_empty s h)

pub first_half : (u : Bytes) → length u ≡ 32 → memcpy (replicate 64 0) 0 u ≡ ok (u ++ zeros)
first_half u len = memcpy_middle [] zeros zeros u (omega (arith, len))

second_half : (u h : Bytes) → length u ≡ 32 → length h ≡ 32 → memcpy (u ++ zeros) 32 h ≡ ok (u ++ h)
second_half u h len size =
    rw (append-nil h, len) at (memcpy_middle u zeros [] h (omega (arith, size)))

-- Two halves of 32 bytes each, wherever they stand in a quote.
pub halves_of :
    (X : External) (Q : Qvl) (front u h back : Bytes)
    → Q.report_data_size ≡ 64
    → length u ≡ 32
    → length h ≡ 32
    → halves X Q (front ++ ((u ++ h) ++ back)) (length front)
      ≡ ok (X.bytes_to_hex_string u, X.bytes_to_hex_string h)
unfolding halves
halves_of X Q front u h back size lu lh =
    let one : view (front ++ ((u ++ h) ++ back)) (length front) 32 ≡ ok u =
      rw (append_assoc u h back) (rw lu at (view_middle front u (h ++ back))) in
    let two : view (front ++ ((u ++ h) ++ back)) (length front + 32) 32 ≡ ok h =
      rw (append_assoc u h back, ← append_assoc front u (h ++ back))
        (rw (length-append front u, lu, lh) at (view_middle (front ++ u) h back)) in
    rw (size, one, two)

module _ (X : External) (x : IsExternal X) (u : Bytes) (p : GenParams) where
  pub filled :
      All IsByte u
      → length u ≡ 32
      → p.report_hex_nonce ≡ []
      → p.hex_user_data ≡ X.bytes_to_hex_string u
      → 0 < length p.pem_public_key
      → fill_report_data X 32 64 p ≡ ok (u ++ X.sha256 (X.hex_string_to_bytes p.pem_public_key))
  unfolding fill_report_data memcpy_some
  filled bs len nonce data_eq key =
      let back : X.hex_string_to_bytes p.hex_user_data ≡ u =
        ap X.hex_string_to_bytes data_eq ∙ x.hex_string_to_bytes-bytes_to_hex_string u bs in
      let some_data : 0 < length p.hex_user_data =
        omega (arith, ap length data_eq, x.length-bytes_to_hex_string u) in
      rw
        (
          nonce,
          memcpy_there p.hex_user_data (replicate 64 0) 0 (X.hex_string_to_bytes p.hex_user_data)
              some_data,
          back,
          first_half u len,
          memcpy_there p.pem_public_key (u ++ zeros) 32
              (X.sha256 (X.hex_string_to_bytes p.pem_public_key)) key,
        )
        (second_half u _ len (x.length-sha256 _))

  pub checked :
      length u ≡ 32
      → p.report_hex_nonce ≡ []
      → p.hex_user_data ≡ X.bytes_to_hex_string u
      → check_params 32 32 p ≡ ok tt
  unfolding check_params
  checked len nonce data_eq =
      let size : length p.hex_user_data ≡ 64 =
        omega (arith, ap length data_eq, x.length-bytes_to_hex_string u) in
      rw (nonce, size)

-- Of a report with no nonce, 32 bytes of user data in hexadecimal and a public key, whichever the quote around
-- the report data is, the verifiers show the same user data, and as the key's hash that of the bytes
-- which the text of the key stands for if it is read as hexadecimal.
pub report_data_shown :
    (X : External) (Q : Qvl) (u front back : Bytes) (p : GenParams)
    → IsExternal X
    → Q.report_data_size ≡ 64
    → All IsByte u
    → length u ≡ 32
    → p.report_hex_nonce ≡ []
    → p.hex_user_data ≡ X.bytes_to_hex_string u
    → 0 < length p.pem_public_key
    → (prepare_report_data X 32 64 p >>= λ d. halves X Q (front ++ (d ++ back)) (length front))
      ≡ ok (
        p.hex_user_data,
        X.bytes_to_hex_string (X.sha256 (X.hex_string_to_bytes p.pem_public_key)),
      )
unfolding prepare_report_data
report_data_shown X Q u front back p x size bs len nonce data_eq key = rw (
  checked X x u p len nonce data_eq,
  filled X x u p bs len nonce data_eq key,
  halves_of X Q front u (X.sha256 (X.hex_string_to_bytes p.pem_public_key)) back size len
      (x.length-sha256 _),
  data_eq,
)
