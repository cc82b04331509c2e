-- ===== src/CryptoUtil/File.antt =====
-- `EncryptFile` and `DecryptFile`: version (4), schema (4), packet count (8), block length (4),
-- and then the blocks, each of the block length but the last.
pub mod Header
pub mod Laws
pub mod RoundTrip
pub mod Checked
use trustflow.Base.{
  ℕ, zero, suc, ◌+◌, ◌-◌, ◌*◌, ◌/◌, ◌%◌, ◌^◌, not, [], ◌∷◌, ◌++◌, Bytes, Str, str_eq, leb, ltb,
  ◌==◌, if◌then◌else◌,
}
use trustflow.Error.{Result, ok, text, number, enforce, ◌>>=◌, ◌>>◌}
use trustflow.CryptoUtil.Platform.{Platform}
use trustflow.CryptoUtil.Word.{bytes_to_int, int_to_bytes}
use trustflow.CryptoUtil.Block.{encrypt_data_block, decrypt_data_block}

abbrev pub version : ℕ
version = 1

abbrev pub schema : ℕ
schema = 1

abbrev pub version_bytes : ℕ
version_bytes = 4

abbrev pub schema_bytes : ℕ
schema_bytes = 4

abbrev pub packet_cnt_bytes : ℕ
packet_cnt_bytes = 8

abbrev pub block_len_bytes : ℕ
block_len_bytes = 4

abbrev pub block_bytes : ℕ
block_bytes = 0x2000

abbrev pub header_len : ℕ
header_len = version_bytes + schema_bytes + packet_cnt_bytes + block_len_bytes

-- `kIvLenBytes + kIvFieldBytes + kMacLenBytes + kMacFieldBytes`
abbrev pub block_header_len : ℕ
block_header_len = 1 + 32 + 1 + 32

abbrev pub block_data_len : ℕ
block_data_len = block_bytes - block_header_len

-- `uint64_t` multiplication.
abbrev pub mul64 : ℕ → ℕ → ℕ
mul64 a b = a * b % 2 ^ 64

-- The number of blocks for a plaintext of `file_len` bytes.
unfoldable pub packets : ℕ → ℕ
packets file_len = file_len / block_data_len + (if file_len % block_data_len == 0 then 0 else 1)

-- The writes of the file header.
unfoldable pub header_writes : ℕ → Bytes
header_writes packet_cnt =
    int_to_bytes version_bytes version
    ++ (int_to_bytes schema_bytes schema
        ++ (int_to_bytes packet_cnt_bytes packet_cnt ++ int_to_bytes block_len_bytes block_bytes))

-- The checks between the header and the blocks.
unfoldable pub check_header : ℕ → ℕ → ℕ → Result (Unit {0})
check_header file_len packet_cnt block_len = do
  enforce (not (block_len == 0)) "block len should not be 0" []
  enforce (mul64 (packet_cnt - 1) block_len / block_len == (packet_cnt - 1))
      "uint64 overflow in DecryptFile" []
  enforce (mul64 packet_cnt block_len / block_len == packet_cnt) "uint64 overflow in DecryptFile" []
  enforce (leb (mul64 (packet_cnt - 1) block_len) (file_len - header_len))
      "N - 1 Data block len is more than required file length" []
  enforce (leb (file_len - header_len) (mul64 block_len packet_cnt))
      "N Data block len is less than required file length" []

module _ (P : Platform) where
  -- The rounds of `for (i = 0; i < packet_cnt - 1; ++i)` that are left. `rand i` are the bytes that
  -- the block's call of `RandBytes(kIvBytes)` returns.
  unfoldable pub encrypt_blocks : (ℕ → Bytes) → ℕ → ℕ → P.In → ℕ → Bytes → Result (Bytes × P.In)
  encrypt_blocks rand zero i input block_len data_key = ok ([], input)
  encrypt_blocks rand (suc n) i input block_len data_key = do
    (written, input) ← encrypt_data_block P input (rand i) block_len data_key
    (more, input) ← encrypt_blocks rand n (suc i) input block_len data_key
    ok (written ++ more, input)

  -- The result is what is written to `dest_path`.
  unfoldable pub encrypt_file : (ℕ → Bytes) → P.Fs → Str → Str → Bytes → Result Bytes
  encrypt_file rand fs src_path dest_path data_key = do
    enforce (not (str_eq src_path dest_path)) "Inplace encryption is not allowed" []
    input ← P.open_in fs src_path
    let file_len = P.get_length input
    let packet_cnt = packets file_len
    enforce (leb 1 packet_cnt) "Pack cnt less than 1" []
    P.open_out fs dest_path
    (blocks, input) ← encrypt_blocks rand (packet_cnt - 1) 0 input block_data_len data_key
    (last, input) ←
        encrypt_data_block P input (rand (packet_cnt - 1))
          ((file_len - (packet_cnt - 1) * block_data_len) % 2 ^ 32) data_key
    ok (header_writes packet_cnt ++ (blocks ++ last))

  -- The rounds of the loop over the blocks before the last.
  unfoldable pub decrypt_blocks : ℕ → P.In → ℕ → Bytes → Result (Bytes × P.In)
  decrypt_blocks zero input block_len data_key = ok ([], input)
  decrypt_blocks (suc n) input block_len data_key = do
    (buf, input) ← P.read input block_len
    decrypted_data ← decrypt_data_block P buf data_key
    (more, input) ← decrypt_blocks n input block_len data_key
    ok (decrypted_data ++ more, input)

  -- The packet count and the block length, and the stream behind them.
  unfoldable pub read_header : P.In → Result (ℕ × ℕ × P.In)
  read_header input = do
    (buf, input) ← P.read (P.seekg input (version_bytes + schema_bytes)) packet_cnt_bytes
    packet_cnt ← bytes_to_int 8 buf
    enforce (leb 1 packet_cnt) "Packet cnt is less than 1" []
    (buf, input) ← P.read input block_len_bytes
    block_len ← bytes_to_int 4 buf
    ok (packet_cnt, block_len, input)

  -- All blocks, the last one with what is left of the file.
  unfoldable pub read_blocks : ℕ → ℕ → ℕ → P.In → Bytes → Result Bytes
  read_blocks file_len packet_cnt block_len input data_key = do
    (blocks, input) ← decrypt_blocks (packet_cnt - 1) input block_len data_key
    (buf, input) ← P.read input (file_len - header_len - mul64 (packet_cnt - 1) block_len)
    last ← decrypt_data_block P buf data_key
    ok (blocks ++ last)

  -- The result is what is written to `dest_path`.
  unfoldable pub decrypt_file : P.Fs → Str → Str → Bytes → Result Bytes
  decrypt_file fs src_path dest_path data_key = do
    enforce (not (str_eq src_path dest_path)) "Inplace decryption is not allowed" []
    input ← P.open_in fs src_path
    P.open_out fs dest_path
    let file_len = P.get_length input
    enforce (ltb header_len file_len) "File length {} is less than required header length {}"
        (number file_len ∷ number header_len ∷ [])
    (packet_cnt, block_len, input) ← read_header input
    check_header file_len packet_cnt block_len
    read_blocks file_len packet_cnt block_len input data_key
