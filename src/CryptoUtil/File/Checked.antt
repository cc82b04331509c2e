-- ===== src/CryptoUtil/File/Checked.antt =====
-- What a successful `DecryptFile` implies about its input.
use trustflow.Base.{ℕ, ◌-◌, ◌≤◌, ◌<◌, ◌≡◌, ◌≢◌, arith, Bytes, Str, str_eq_refl}
use trustflow.Error.{ok, with_value}
use trustflow.CryptoUtil.Platform.{Platform}
use trustflow.CryptoUtil.Word.{bytes_to_int}
use trustflow.CryptoUtil.Block.{decrypt_data_block}
use trustflow.CryptoUtil.Block.Laws.{IsKey, decrypt_data_block_needs}
use trustflow.CryptoUtil.File.{
  mul64, check_header, decrypt_blocks, read_header, read_blocks, decrypt_file,
}
use trustflow.CryptoUtil.File.Header.{Fits, check_header_iff}

-- A file whose packet count and block length are read after the version and the schema.
abbrev pub HasHeader : (P : Platform) → P.In → ℕ → ℕ → Type 0
HasHeader P t cnt bl =
    (r1 : Bytes × P.In) × (r2 : Bytes × P.In) × (P.read (P.seekg t 8) 8 ≡ ok r1)
    × (bytes_to_int 8 r1.0 ≡ ok cnt)
    × (P.read r1.1 4 ≡ ok r2)
    × (bytes_to_int 4 r2.0 ≡ ok bl)

header_read :
    (P : Platform) (t : P.In) {h : ℕ × ℕ × P.In}
    → read_header P t ≡ ok h
    → (1 ≤ h.0) × HasHeader P t h.0 h.1
unfolding read_header
header_read P t e =
    with_value (P.read (P.seekg t 8) 8) (λ x h. ground arith) (λ h. ground arith)
      λ r1 e2.
        with_value (bytes_to_int 8 r1.0) (λ x h. ground arith) (λ h. ground arith)
          λ cnt e3.
            with_value (P.read r1.1 4) (λ x h. ground arith) (λ h. ground arith)
              λ r2 e4. (ground arith, (r1, r2, e2, ground arith, e4, ground arith))

last_block_read :
    (P : Platform) (n cnt bl : ℕ) (t : P.In) (key : Bytes) {c : Bytes}
    → read_blocks P n cnt bl t key ≡ ok c
    → (b : Bytes) × (last : Bytes) × (decrypt_data_block P b key ≡ ok last)
unfolding read_blocks
last_block_read P n cnt bl t key e =
    with_value (decrypt_blocks P (cnt - 1) t bl key) (λ x h. ground arith) (λ h. ground arith)
      λ r3 e6.
        with_value (P.read r3.1 (n - 20 - mul64 (cnt - 1) bl)) (λ x h. ground arith)
          (λ h. ground arith)
          λ r4 e7.
            with_value (decrypt_data_block P r4.0 key) (λ x h. ground arith) (λ h. ground arith)
              λ last e8. (r4.0, last, e8)

parts :
    (P : Platform) (fs : P.Fs) (src dest : Str) (key c : Bytes)
    → decrypt_file P fs src dest key ≡ ok c
    → (t : P.In) × (h : ℕ × ℕ × P.In) × (P.open_in fs src ≡ ok t)
      × (20 < P.get_length t)
      × (read_header P t ≡ ok h)
      × (check_header (P.get_length t) h.0 h.1 ≡ ok tt)
      × (read_blocks P (P.get_length t) h.0 h.1 h.2 key ≡ ok c)
unfolding decrypt_file
parts P fs src dest key c e =
    with_value (P.open_in fs src) (λ x h. ground arith) (λ h. ground arith)
      λ t e1.
        with_value (read_header P t) (λ x h. ground arith) (λ h. ground arith)
          λ h e2.
            with_value (check_header (P.get_length t) h.0 h.1) (λ x h. ground arith)
              (λ h. ground arith) λ u e3. (t, h, e1, ground arith, e2, e3, ground arith)

not_in_place :
    (P : Platform) (fs : P.Fs) (src dest : Str) (key c : Bytes)
    → decrypt_file P fs src dest key ≡ ok c
    → src ≢ dest
unfolding decrypt_file
not_in_place P fs src dest key c e = ground (arith, str_eq_refl src)

-- A file is decrypted only if it is not the output, its header says of `cnt` blocks of `bl` bytes
-- what fits its length with no product wrapping around 64 bits, and the key has 16 or 32 bytes.
pub decrypt_file_checked :
    (P : Platform) (fs : P.Fs) (src dest : Str) (key c : Bytes)
    → decrypt_file P fs src dest key ≡ ok c
    → (src ≢ dest)
      × IsKey key
      × ((t : P.In) × (cnt : ℕ) × (bl : ℕ) × (P.open_in fs src ≡ ok t)
          × (20 < P.get_length t)
          × (1 ≤ cnt)
          × HasHeader P t cnt bl
          × Fits (P.get_length t) cnt bl)
decrypt_file_checked P fs src dest key c e =
    let (t, h, e1, e2, e3, e4, e5) = parts P fs src dest key c e in
    let (b, last, d) = last_block_read P _ h.0 h.1 h.2 key e5 in
    let (one, header) = header_read P t e3 in
    (
      not_in_place P fs src dest key c e,
      (decrypt_data_block_needs P b key d).1,
      (t, h.0, h.1, e1, e2, one, header, (check_header_iff _ h.0 h.1).0 e4),
    )
