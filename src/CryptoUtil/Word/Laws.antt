-- ===== src/CryptoUtil/Word/Laws.antt =====
-- `bytes_to_int` reads a little-endian number, and undoes `int_to_bytes`.
use trustflow.Base.{
  ℕ, zero, suc, ◌+◌, ◌*◌, ◌/◌, ◌^◌, ◌≤◌, ◌<◌, ◌≡◌, refl, ap, ◌∙◌, [], ◌∷◌, arith, Bytes, IsByte,
  All, length, le→leb,
}
use trustflow.Base.Bits.{bit_or-byte}
use trustflow.Error.{ok, throw, error}
use trustflow.CryptoUtil.Word.{join_bytes, bytes_to_int, int_to_bytes}
use native.Mathlib.Nat.{pow-suc, pow-le-pow_right, mod-eq_of_lt}

-- The number that the bytes write, lowest byte first.
pub value : Bytes → ℕ
value [] = 0
value (b ∷ bs) = b + 256 * value bs

value-lt : (bs : Bytes) → All IsByte bs → value bs < 256 ^ length bs
unfolding value
value-lt [] h = omega arith
value-lt (b ∷ bs) (hb, hs) = omega (arith, value-lt bs hs, pow-suc 256 (length bs))

join_bytes-value :
    (size : ℕ) (bs : Bytes) → length bs ≤ size → All IsByte bs → join_bytes size bs ≡ value bs
unfolding join_bytes value
join_bytes-value size [] h a = refl
join_bytes-value size (b ∷ bs) h (hb, hs) =
    rw (join_bytes-value size bs (omega arith) hs)
      (rw (mod-eq_of_lt fits) (bit_or-byte (value bs * 256) b (omega arith) hb ∙ omega arith))
  where
    fits : value bs * 256 < 256 ^ size
    fits =
        omega (
          arith,
          value-lt bs hs,
          pow-suc 256 (length bs),
          pow-le-pow_right {n = 256} (omega arith) h,
        )

-- Up to `sizeof(T)` bytes are read as the little-endian number they write, which fits `T`.
pub bytes_to_int-value :
    (size : ℕ) (bs : Bytes)
    → length bs ≤ size
    → All IsByte bs
    → (bytes_to_int size bs ≡ ok (value bs)) × (value bs < 256 ^ size)
unfolding bytes_to_int
bytes_to_int-value size bs h a = (
  rw (le→leb (length bs) size h) (ap ok (join_bytes-value size bs h a)),
  omega (arith, value-lt bs a, pow-le-pow_right {n = 256} (omega arith) h),
)

pub length-int_to_bytes : (size n : ℕ) → length (int_to_bytes size n) ≡ size
unfolding int_to_bytes
length-int_to_bytes zero n = refl
length-int_to_bytes (suc size) n = ap suc (length-int_to_bytes size (n / 256))

pub int_to_bytes-IsByte : (size n : ℕ) → All IsByte (int_to_bytes size n)
unfolding int_to_bytes
int_to_bytes-IsByte zero n = tt
int_to_bytes-IsByte (suc size) n = (omega arith, int_to_bytes-IsByte size (n / 256))

value-int_to_bytes : (size n : ℕ) → n < 256 ^ size → value (int_to_bytes size n) ≡ n
unfolding int_to_bytes value
value-int_to_bytes zero n h = omega arith
value-int_to_bytes (suc size) n h =
    omega (arith, value-int_to_bytes size (n / 256) (omega (arith, pow-suc 256 size)))

-- Reading back the bytes of an unsigned integer gives the integer, and the bytes of any number
-- wrap it to the width.
pub bytes_to_int-int_to_bytes :
    (size n : ℕ) → n < 256 ^ size → bytes_to_int size (int_to_bytes size n) ≡ ok n
bytes_to_int-int_to_bytes size n h =
    (bytes_to_int-value size (int_to_bytes size n) (omega (arith, length-int_to_bytes size n))
      (int_to_bytes-IsByte size n)).0
    ∙ ap ok (value-int_to_bytes size n h)

-- More bytes than the integer has are refused.
pub bytes_to_int_overflow :
    (size : ℕ) (bs : Bytes)
    → size < length bs
    → bytes_to_int size bs ≡ throw (error "Converting bytes to integer overflow" [])
unfolding bytes_to_int
bytes_to_int_overflow size bs h = ground arith
