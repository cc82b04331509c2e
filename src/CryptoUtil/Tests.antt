-- ===== src/CryptoUtil/Tests.antt =====
-- The theorems at concrete files.
use trustflow.Base.{
  ℕ, ◌^◌, ◌≤◌, ◌<◌, ◌≡◌, ◌≢◌, ◌↔◌, refl, inl, [], ◌∷◌, arith, Bytes, Str, codes, str_eq, length,
  replicate,
}
use trustflow.Error.{ok}
use trustflow.CryptoUtil.Sample.{Stream, memory, memory-IsPlatform, key, content, written}
use trustflow.CryptoUtil.Word.{bytes_to_int, int_to_bytes, join_bytes}
use trustflow.CryptoUtil.Word.Laws.{bytes_to_int-value, value}
use trustflow.CryptoUtil.Block.{
  encrypt_data_block, decrypt_data_block, decrypt_with_key, encrypt_with_key, block_writes,
}
use trustflow.CryptoUtil.Block.Laws.{IsKey}
use trustflow.CryptoUtil.File.{
  encrypt_file, decrypt_file, check_header, packets, header_writes, encrypt_blocks, decrypt_blocks,
  read_header, read_blocks,
}
use trustflow.CryptoUtil.File.Header.{Fits, check_header_iff}
use trustflow.CryptoUtil.File.Laws.{sealed_file}
use trustflow.CryptoUtil.File.RoundTrip.{encrypt_file-sealed_file, decrypt_file-encrypt_file}
use trustflow.CryptoUtil.File.Checked.{HasHeader, decrypt_file_checked}

abbrev rand : ℕ → Bytes
rand i = replicate 12 i

abbrev a_path : Str
a_path = codes "a"

abbrev b_path : Str
b_path = codes "a.enc"

abbrev c_path : Str
c_path = codes "c"

a-ne-b : a_path ≢ b_path
a-ne-b e = cc

b-ne-c : b_path ≢ c_path
b-ne-c e = cc

encrypted : encrypt_file memory rand content a_path b_path key ≡ ok written
unfolding encrypt_file str_eq packets header_writes int_to_bytes encrypt_blocks encrypt_data_block
    encrypt_with_key block_writes
encrypted = refl

decrypted : decrypt_file memory written b_path c_path key ≡ ok content
unfolding decrypt_file str_eq read_header read_blocks bytes_to_int join_bytes check_header
    decrypt_blocks decrypt_data_block decrypt_with_key
decrypted = refl

decrypt_file-encrypt_file_example : decrypt_file memory written b_path c_path key ≡ ok content
decrypt_file-encrypt_file_example =
    decrypt_file-encrypt_file memory memory-IsPlatform key (inl refl) rand (λ i. refl) content
      written a_path b_path c_path content written (3, content) (length written, written) a-ne-b
      b-ne-c refl refl refl encrypted refl refl refl (omega arith)

encrypt_file-sealed_file_example :
    encrypt_file memory rand content a_path b_path key ≡ ok (sealed_file memory key rand content)
encrypt_file-sealed_file_example =
    encrypt_file-sealed_file memory memory-IsPlatform key (inl refl) rand (λ i. refl) content a_path
      b_path content (3, content) a-ne-b refl refl refl (omega arith)

decrypt_file_checked_example :
    (b_path ≢ c_path)
    × IsKey key
    × ((t : Stream) × (cnt : ℕ) × (bl : ℕ) × (memory.open_in written b_path ≡ ok t)
        × (20 < memory.get_length t)
        × (1 ≤ cnt)
        × HasHeader memory t cnt bl
        × Fits (memory.get_length t) cnt bl)
decrypt_file_checked_example =
    decrypt_file_checked memory written b_path c_path key content decrypted

check_header_iff_example : (check_header 89 1 8192 ≡ ok tt) ↔ Fits 89 1 8192
check_header_iff_example = check_header_iff 89 1 8192

bytes_to_int-value_example :
    (bytes_to_int 4 (0 ∷ 32 ∷ []) ≡ ok (value (0 ∷ 32 ∷ []))) × (value (0 ∷ 32 ∷ []) < 256 ^ 4)
bytes_to_int-value_example = bytes_to_int-value 4 (0 ∷ 32 ∷ []) (omega arith) (omega arith)
