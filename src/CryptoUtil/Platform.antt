-- ===== src/CryptoUtil/Platform.antt =====
-- What the file format takes from yacl (file streams and AES-GCM) and from absl (spans).
use trustflow.Base.{ℕ, ◌≡◌, ◌++◌, Bytes, Str, length}
use trustflow.Error.{Result, ok}

pub record Platform : Type 1 where
  -- The file system, and a `yacl::io::FileInputStream` with its position.
  pub Fs : Type 0
  pub In : Type 0
  pub open_in : Fs → Str → Result In
  pub open_out : Fs → Str → Result (Unit {0})
  pub get_length : In → ℕ
  pub seekg : In → ℕ → In
  pub read : In → ℕ → Result (Bytes × In)
  -- `subspan(pos, len)` and `subspan(pos)` of a byte view.
  pub subspan : Bytes → ℕ → ℕ → Result Bytes
  pub subspan_from : Bytes → ℕ → Result Bytes
  -- `Encrypt` and `Decrypt` of `Aes128GcmCrypto` and `Aes256GcmCrypto`: key, iv, text and aad.
  pub aes128_encrypt : Bytes → Bytes → Bytes → Bytes → Bytes × Bytes
  pub aes128_decrypt : Bytes → Bytes → Bytes → Bytes → Bytes → Result Bytes
  pub aes256_encrypt : Bytes → Bytes → Bytes → Bytes → Bytes × Bytes
  pub aes256_decrypt : Bytes → Bytes → Bytes → Bytes → Bytes → Result Bytes

-- A pair of functions for authenticated encryption under keys of `n` bytes.
pub record IsGcm (n : ℕ) (encrypt : Bytes → Bytes → Bytes → Bytes → Bytes × Bytes)
    (decrypt : Bytes → Bytes → Bytes → Bytes → Bytes → Result Bytes) : Type 0 where
  pub length-cipher :
      (key iv text aad : Bytes) → length key ≡ n → length (encrypt key iv text aad).0 ≡ length text
  pub length-mac :
      (key iv text aad : Bytes) → length key ≡ n → length (encrypt key iv text aad).1 ≡ 16
  pub decrypt-encrypt :
      (key iv text aad : Bytes)
      → length key ≡ n
      → decrypt key iv (encrypt key iv text aad).0 aad (encrypt key iv text aad).1 ≡ ok text

-- `At n rest s`: the stream `s` is over a file of `n` bytes, of which `rest` is still to be read.
pub record IsPlatform (P : Platform) : Type 1 where
  pub At : ℕ → Bytes → P.In → Type 0
  pub get_length-at : (n : ℕ) (rest : Bytes) (s : P.In) → At n rest s → P.get_length s ≡ n
  pub read-at :
      (n : ℕ) (front rest : Bytes) (s : P.In)
      → At n (front ++ rest) s
      → (s' : P.In) × (P.read s (length front) ≡ ok (front, s')) × At n rest s'
  pub seekg-at :
      (front rest : Bytes) (s : P.In)
      → At (length (front ++ rest)) (front ++ rest) s
      → At (length (front ++ rest)) rest (P.seekg s (length front))
  pub subspan_inside :
      (front mid back : Bytes)
      → P.subspan (front ++ (mid ++ back)) (length front) (length mid) ≡ ok mid
  pub subspan_from_inside :
      (front back : Bytes) → P.subspan_from (front ++ back) (length front) ≡ ok back
  pub aes128 : IsGcm 16 P.aes128_encrypt P.aes128_decrypt
  pub aes256 : IsGcm 32 P.aes256_encrypt P.aes256_decrypt
