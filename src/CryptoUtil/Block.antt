-- ===== src/CryptoUtil/Block.antt =====
-- `DecryptDataBlock` and `EncryptDataBlock`: one block of the encrypted file, which is
-- iv length (1), iv field (32), mac length (1), mac field (32), data.
pub mod Laws
use trustflow.Base.{
  ℕ, ◌+◌, ◌-◌, ◌%◌, ◌^◌, [], ◌∷◌, ◌++◌, Bytes, length, replicate, leb, ◌==◌, if◌then◌else◌,
}
use trustflow.Error.{Result, ok, Arg, number, enforce, yacl_throw, ◌>>=◌, ◌>>◌}
use trustflow.CryptoUtil.Platform.{Platform}
use trustflow.CryptoUtil.Word.{bytes_to_int}

abbrev pub iv_bytes : ℕ
iv_bytes = 12

abbrev pub mac_bytes : ℕ
mac_bytes = 16

abbrev pub iv_field_bytes : ℕ
iv_field_bytes = 32

abbrev pub mac_field_bytes : ℕ
mac_field_bytes = 32

abbrev pub aes128_key_len : ℕ
aes128_key_len = 16

abbrev pub aes256_key_len : ℕ
aes256_key_len = 32

abbrev pub iv_len_bytes : ℕ
iv_len_bytes = 1

abbrev pub mac_len_bytes : ℕ
mac_len_bytes = 1

-- The zeros behind a value in a field: the subtraction is one of `size_t`.
abbrev pub padding : ℕ → Bytes → Bytes
padding field xs = replicate ((field + 2 ^ 64 - length xs) % 2 ^ 64) 0

-- The writes of one block, in their order.
unfoldable pub block_writes : Bytes → Bytes → Bytes → Bytes
block_writes iv mac encrypted_data =
    (iv_bytes ∷ [])
    ++ (iv
        ++ (padding iv_field_bytes iv
            ++ ((mac_bytes ∷ []) ++ (mac ++ (padding mac_field_bytes mac ++ encrypted_data)))))

module _ (P : Platform) where
  unfoldable pub decrypt_with_key : Bytes → Bytes → Bytes → Bytes → Result Bytes
  decrypt_with_key data_key iv encrypted_data mac =
      if length data_key == aes128_key_len
      then P.aes128_decrypt data_key iv encrypted_data [] mac
      else if length data_key == aes256_key_len
      then P.aes256_decrypt data_key iv encrypted_data [] mac
      else yacl_throw "data_key size error got {}" (number (length data_key) ∷ [])

  unfoldable pub decrypt_data_block : Bytes → Bytes → Result Bytes
  decrypt_data_block data_block data_key = do
    enforce (leb iv_len_bytes (length data_block)) "Data block format is not correct" []
    iv_len ← (P.subspan data_block 0 iv_len_bytes >>= bytes_to_int 8)
    let offset = iv_len_bytes
    enforce (leb (offset + iv_field_bytes) (length data_block)) "Data block format is not correct"
        []
    iv ← P.subspan data_block offset iv_len
    let offset = iv_len_bytes + iv_field_bytes
    enforce (leb (offset + mac_len_bytes) (length data_block)) "Data block format is not correct" []
    mac_len ← (P.subspan data_block offset mac_len_bytes >>= bytes_to_int 8)
    let offset = iv_len_bytes + iv_field_bytes + mac_len_bytes
    enforce (leb (offset + mac_field_bytes) (length data_block)) "Data block format is not correct"
        []
    mac ← P.subspan data_block offset mac_len
    encrypted_data ←
        P.subspan_from data_block (iv_len_bytes + iv_field_bytes + mac_len_bytes + mac_field_bytes)
    decrypt_with_key data_key iv encrypted_data mac

  unfoldable pub encrypt_with_key : Bytes → Bytes → Bytes → Result (Bytes × Bytes)
  encrypt_with_key data_key iv raw_data =
      if length data_key == aes128_key_len
      then ok (P.aes128_encrypt data_key iv raw_data [])
      else if length data_key == aes256_key_len
      then ok (P.aes256_encrypt data_key iv raw_data [])
      else yacl_throw "data_key size error got {}" (number (length data_key) ∷ [])

  -- `iv` is what `RandBytes(kIvBytes)` returned. The result is what is written to `out`, and `in`.
  unfoldable pub encrypt_data_block : P.In → Bytes → ℕ → Bytes → Result (Bytes × P.In)
  encrypt_data_block input iv block_len data_key = do
    (raw_data, input) ← P.read input block_len
    (encrypted_data, mac) ← encrypt_with_key data_key iv raw_data
    ok (block_writes iv mac encrypted_data, input)
