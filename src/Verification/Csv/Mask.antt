-- ===== src/Verification/Csv/Mask.antt =====
-- `RetrieveCsvQuotePlainData`: each word of a field is masked by the word `anonce`.
pub mod Laws
use trustflow.Base.{ℕ, ◌+◌, ◌*◌, ◌%◌, bit_xor, [], ◌∷◌, ◌++◌, Bytes, ◌==◌}
use trustflow.Error.{Result, ok, number, enforce, ◌>>=◌, ◌>>◌}
use trustflow.CryptoUtil.Word.{int_to_bytes}
use trustflow.Attestation.{view}

-- A `uint32_t` in memory, on a little-endian host.
abbrev pub word : ℕ → ℕ → ℕ → ℕ → ℕ
word a b c d = a + 256 * b + 65536 * c + 16777216 * d

-- The loop over the words of the data.
unfoldable pub xor_words : ℕ → Bytes → Bytes
xor_words anonce (a ∷ b ∷ c ∷ d ∷ rest) =
    int_to_bytes 4 (bit_xor (word a b c d) anonce) ++ xor_words anonce rest
xor_words anonce _ = []

-- `src` are the bytes from `src_data` on, as far as the object goes that it points into.
unfoldable pub retrieve_csv_quote_plain_data : Bytes → ℕ → ℕ → ℕ → Result Bytes
retrieve_csv_quote_plain_data src size_of element_num anonce = do
  let data_size = size_of * element_num
  enforce (data_size % 4 == 0) "Data size in bytes must be times of sizeof(uint32_t), but got {}"
      (number data_size ∷ [])
  src_data ← view src 0 data_size
  ok (xor_words anonce src_data)
