-- ===== src/CryptoUtil/Block/Laws.antt =====
-- One block: decryption inverts encryption, and short blocks and bad keys are refused.
use trustflow.Base.{
  ℕ, ◌+◌, ◌-◌, ◌^◌, ◌≤◌, ◌<◌, ◌≡◌, refl, ◌⊎◌, inl, inr, ◌∙◌, [], ◌∷◌, ◌++◌, append_assoc, arith,
  Bytes, length, length-append, length-replicate, ◌==◌, if◌then◌else◌,
}
use trustflow.Error.{ok}
use trustflow.CryptoUtil.Platform.{Platform, IsPlatform}
use trustflow.CryptoUtil.Word.{bytes_to_int, join_bytes}
use trustflow.CryptoUtil.Block.{
  padding, decrypt_with_key, decrypt_data_block, encrypt_with_key, block_writes, encrypt_data_block,
}

-- A key that the format supports.
abbrev pub IsKey : Bytes → Type 0
IsKey key = (length key ≡ 16) ⊎ (length key ≡ 32)

length-padding :
    (field : ℕ) (xs : Bytes)
    → length xs ≤ field
    → field < 2 ^ 64
    → length (padding field xs) ≡ field - length xs
length-padding field xs h l = length-replicate _ 0 ∙ omega arith

pub length-block_writes :
    (iv mac enc : Bytes)
    → length iv ≡ 12
    → length mac ≡ 16
    → length (block_writes iv mac enc) ≡ 66 + length enc
unfolding block_writes
length-block_writes iv mac enc hi hm = simp length-append (
    omega (
      arith,
      length-padding 32 iv (omega arith) (omega arith),
      length-padding 32 mac (omega arith) (omega arith),
    ))

module _ (P : Platform) where
  -- The cipher text and the mac of one block, for the keys that the format supports.
  pub seal : Bytes → Bytes → Bytes → Bytes × Bytes
  seal key iv raw =
      if length key == 16 then P.aes128_encrypt key iv raw [] else P.aes256_encrypt key iv raw []

  pub sealed_block : Bytes → Bytes → Bytes → Bytes
  sealed_block key iv raw = block_writes iv (seal key iv raw).1 (seal key iv raw).0

module _ (P : Platform) (L : IsPlatform P) where
  subspan-at :
      (b front mid back : Bytes) (i n : ℕ)
      → b ≡ front ++ (mid ++ back)
      → i ≡ length front
      → n ≡ length mid
      → P.subspan b i n ≡ ok mid
  subspan-at b front mid back i n e f g = rw (e, f, g) (L.subspan_inside front mid back)

  subspan_from-at :
      (b front back : Bytes) (i : ℕ)
      → b ≡ front ++ back
      → i ≡ length front
      → P.subspan_from b i ≡ ok back
  subspan_from-at b front back i e f = rw (e, f) (L.subspan_from_inside front back)

  decrypt_data_block-parts :
      (b iv mac enc key : Bytes)
      → 66 ≤ length b
      → P.subspan b 0 1 ≡ ok (12 ∷ [])
      → P.subspan b 1 12 ≡ ok iv
      → P.subspan b 33 1 ≡ ok (16 ∷ [])
      → P.subspan b 34 16 ≡ ok mac
      → P.subspan_from b 66 ≡ ok enc
      → decrypt_data_block P b key ≡ decrypt_with_key P key iv enc mac
  unfolding decrypt_data_block bytes_to_int join_bytes
  decrypt_data_block-parts b iv mac enc key h e1 e2 e3 e4 e5 = ground arith

  module _ (iv mac enc key : Bytes) (hi : length iv ≡ 12) (hm : length mac ≡ 16) where
    -- The block that is written is taken apart into what it was made of.
    pub decrypt_data_block-block_writes :
        decrypt_data_block P (block_writes iv mac enc) key ≡ decrypt_with_key P key iv enc mac
    unfolding block_writes
    decrypt_data_block-block_writes =
        let pads : (length (padding 32 iv) ≡ 20) × (length (padding 32 mac) ≡ 16) = (
          length-padding 32 iv (omega arith) (omega arith) ∙ omega arith,
          length-padding 32 mac (omega arith) (omega arith) ∙ omega arith,
        ) in
        decrypt_data_block-parts (block_writes iv mac enc) iv mac enc key
          (omega (arith, length-block_writes iv mac enc hi hm))
          (subspan-at _ [] (12 ∷ []) _ 0 1 refl refl refl)
          (subspan-at _ (12 ∷ []) iv _ 1 12 refl refl (omega arith))
          (subspan-at _ ((12 ∷ []) ++ (iv ++ padding 32 iv)) (16 ∷ [])
            (mac ++ (padding 32 mac ++ enc)) 33 1 (simp append_assoc)
            (simp length-append (omega (arith, pads))) refl)
          (subspan-at _ ((12 ∷ []) ++ (iv ++ (padding 32 iv ++ (16 ∷ [])))) mac
            (padding 32 mac ++ enc) 34 16 (simp append_assoc)
            (simp length-append (omega (arith, pads))) (omega arith))
          (subspan_from-at _
            ((12 ∷ []) ++ (iv ++ (padding 32 iv ++ ((16 ∷ []) ++ (mac ++ padding 32 mac))))) enc 66
            (simp append_assoc) (simp length-append (omega (arith, pads))))

  encrypt_with_key-seal :
      (key iv raw : Bytes) → IsKey key → encrypt_with_key P key iv raw ≡ ok (seal P key iv raw)
  unfolding encrypt_with_key seal
  encrypt_with_key-seal key iv raw k = ground arith

  length-seal :
      (key iv raw : Bytes)
      → IsKey key
      → (length (seal P key iv raw).0 ≡ length raw) × (length (seal P key iv raw).1 ≡ 16)
  unfolding seal
  length-seal key iv raw (inl k) =
      rw k (L.aes128.length-cipher key iv raw [] k, L.aes128.length-mac key iv raw [] k)
  length-seal key iv raw (inr k) =
      rw k (L.aes256.length-cipher key iv raw [] k, L.aes256.length-mac key iv raw [] k)

  decrypt_with_key-seal :
      (key iv raw : Bytes)
      → IsKey key
      → decrypt_with_key P key iv (seal P key iv raw).0 (seal P key iv raw).1 ≡ ok raw
  unfolding decrypt_with_key seal
  decrypt_with_key-seal key iv raw (inl k) = rw k (L.aes128.decrypt-encrypt key iv raw [] k)
  decrypt_with_key-seal key iv raw (inr k) = rw k (L.aes256.decrypt-encrypt key iv raw [] k)

  pub length-sealed_block :
      (key iv raw : Bytes)
      → IsKey key
      → length iv ≡ 12
      → length (sealed_block P key iv raw) ≡ 66 + length raw
  unfolding sealed_block
  length-sealed_block key iv raw k h =
      let (lc, lm) = length-seal key iv raw k in length-block_writes iv _ _ h lm ∙ omega arith

  -- Decryption of a block that encryption wrote gives the data back.
  pub decrypt_data_block-sealed_block :
      (key iv raw : Bytes)
      → IsKey key
      → length iv ≡ 12
      → decrypt_data_block P (sealed_block P key iv raw) key ≡ ok raw
  unfolding sealed_block
  decrypt_data_block-sealed_block key iv raw k h =
      let (lc, lm) = length-seal key iv raw k in
      decrypt_data_block-block_writes iv _ _ key h lm ∙ decrypt_with_key-seal key iv raw k

  -- `EncryptDataBlock` reads the next data and writes its sealed block.
  pub encrypt_data_block-at :
      (n : ℕ) (raw rest : Bytes) (s : P.In) (key iv : Bytes)
      → IsKey key
      → L.At n (raw ++ rest) s
      → (s' : P.In) × (encrypt_data_block P s iv (length raw) key
          ≡ ok (sealed_block P key iv raw, s'))
        × L.At n rest s'
  unfolding encrypt_data_block sealed_block
  encrypt_data_block-at n raw rest s key iv k a =
      let (s', e, a') = L.read-at n raw rest s a in
      (s', rw e (rw (encrypt_with_key-seal key iv raw k)), a')

module _ (P : Platform) (b key : Bytes) {raw : Bytes}
    (done : decrypt_data_block P b key ≡ ok raw) where
  -- A block that is decrypted has a whole header, and its key has one of the two lengths.
  pub decrypt_data_block_needs : (66 ≤ length b) × IsKey key
  unfolding decrypt_data_block decrypt_with_key
  decrypt_data_block_needs = ground arith
