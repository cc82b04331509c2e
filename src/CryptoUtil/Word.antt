-- ===== src/CryptoUtil/Word.antt =====
-- `Bytes2Int`, and the bytes of an unsigned integer in memory on a little-endian host.
pub mod Laws
use trustflow.Base.{ℕ, zero, suc, ◌*◌, ◌/◌, ◌%◌, ◌^◌, bit_or, [], ◌∷◌, Bytes, length, leb}
use trustflow.Error.{Result, ok, enforce, ◌>>◌}

-- The loop `ret = (ret << 8 | bytes[len - i - 1])` of an integer of `size` bytes: the last byte of
-- the list is joined first.
unfoldable pub join_bytes : ℕ → Bytes → ℕ
join_bytes size [] = 0
join_bytes size (b ∷ bs) = bit_or (join_bytes size bs * 256 % 256 ^ size) b

unfoldable pub bytes_to_int : ℕ → Bytes → Result ℕ
bytes_to_int size bytes = do
  enforce (leb (length bytes) size) "Converting bytes to integer overflow" []
  ok (join_bytes size bytes)

-- `reinterpret_cast<const char*>(&n)` over `size` bytes.
unfoldable pub int_to_bytes : ℕ → ℕ → Bytes
int_to_bytes zero n = []
int_to_bytes (suc size) n = (n % 256) ∷ int_to_bytes size (n / 256)
