-- ===== src/Verification/Csv/Mask/Laws.antt =====
-- Unmasking undoes masking.
use trustflow.Base.{
  ℕ, ◌+◌, ◌*◌, ◌/◌, ◌%◌, ◌^◌, ◌<◌, ◌≡◌, refl, ap, ap₂, ◌∙◌, bit_xor, [], ◌∷◌, ◌++◌, arith, Bytes,
  IsByte, All, length, take, length-take, ◌≤◌,
}
use trustflow.Base.Bits.{xor_cancel, bit_xor-lt}
use trustflow.CryptoUtil.Word.{int_to_bytes}
use trustflow.Verification.Csv.Mask.{word, xor_words, retrieve_csv_quote_plain_data}
use trustflow.Error.{ok}
use trustflow.Attestation.{view}

word-digits :
    (n : ℕ)
    → n < 2 ^ 32
    → word (n % 256) (n / 256 % 256) (n / 256 / 256 % 256) (n / 256 / 256 / 256 % 256) ≡ n
word-digits n h = omega arith

abbrev SameBytes : Bytes → Bytes → Type 0
SameBytes a b = a ≡ b

four :
    {a b c d a' b' c' d' : ℕ}
    → a ≡ a'
    → b ≡ b'
    → c ≡ c'
    → d ≡ d'
    → SameBytes (a ∷ b ∷ c ∷ d ∷ []) (a' ∷ b' ∷ c' ∷ d' ∷ [])
four p q r s = cc

int_to_bytes-word :
    (a b c d : ℕ)
    → IsByte a
    → IsByte b
    → IsByte c
    → IsByte d
    → int_to_bytes 4 (word a b c d) ≡ a ∷ b ∷ c ∷ d ∷ []
unfolding int_to_bytes
int_to_bytes-word a b c d ha hb hc hd = four (omega arith) (omega arith) (omega arith) (omega arith)

word-lt : (a b c d : ℕ) → IsByte a → IsByte b → IsByte c → IsByte d → word a b c d < 2 ^ 32
word-lt a b c d ha hb hc hd = omega arith

-- A word that is written is read again, whatever follows it.
xor_words-int_to_bytes :
    (k n : ℕ) (rest : Bytes)
    → n < 2 ^ 32
    → xor_words k (int_to_bytes 4 n ++ rest) ≡ int_to_bytes 4 (bit_xor n k) ++ xor_words k rest
unfolding xor_words int_to_bytes
xor_words-int_to_bytes k n rest h =
    ap (λ m. int_to_bytes 4 (bit_xor m k) ++ xor_words k rest) (word-digits n h)

xor_words-word :
    (k a b c d : ℕ) (rest : Bytes)
    → xor_words k (a ∷ b ∷ c ∷ d ∷ rest)
      ≡ int_to_bytes 4 (bit_xor (word a b c d) k) ++ xor_words k rest
unfolding xor_words
xor_words-word k a b c d rest = refl

-- Data that is a whole number of words comes back when it is masked twice with the same word of
-- 32 bits.
pub xor_words-xor_words :
    (k : ℕ) (bs : Bytes)
    → k < 2 ^ 32
    → All IsByte bs
    → length bs % 4 ≡ 0
    → xor_words k (xor_words k bs) ≡ bs
unfolding xor_words
xor_words-xor_words k [] hk h e = refl
xor_words-xor_words k (a ∷ []) hk h e = absurd (omega arith)
xor_words-xor_words k (a ∷ b ∷ []) hk h e = absurd (omega arith)
xor_words-xor_words k (a ∷ b ∷ c ∷ []) hk h e = absurd (omega arith)
xor_words-xor_words k (a ∷ b ∷ c ∷ d ∷ rest) hk (ha, (hb, (hc, (hd, hs)))) e =
    xor_words-int_to_bytes k (bit_xor (word a b c d) k) (xor_words k rest)
      (bit_xor-lt (word a b c d) k (word-lt a b c d ha hb hc hd) hk)
    ∙ ap₂ (λ n r. int_to_bytes 4 n ++ r) (xor_cancel (word a b c d) k)
        (xor_words-xor_words k rest hk hs (omega arith))
    ∙ ap (λ w. w ++ rest) (int_to_bytes-word a b c d ha hb hc hd)

int_to_bytes-length : (n : ℕ) (rest : Bytes) → length (int_to_bytes 4 n ++ rest) ≡ 4 + length rest
unfolding int_to_bytes
int_to_bytes-length n rest = omega arith

length-xor_words : (k : ℕ) (bs : Bytes) → length (xor_words k bs) ≤ length bs
unfolding xor_words
length-xor_words k [] = omega arith
length-xor_words k (a ∷ []) = omega arith
length-xor_words k (a ∷ b ∷ []) = omega arith
length-xor_words k (a ∷ b ∷ c ∷ []) = omega arith
length-xor_words k (a ∷ b ∷ c ∷ d ∷ rest) = omega (
  arith,
  length-xor_words k rest,
  int_to_bytes-length (bit_xor (word a b c d) k) (xor_words k rest),
)

-- No more is unmasked than was asked for.
pub length-retrieve :
    (src : Bytes) (size count k : ℕ) {bs : Bytes}
    → retrieve_csv_quote_plain_data src size count k ≡ ok bs
    → length bs ≤ size * count
unfolding retrieve_csv_quote_plain_data view
length-retrieve src size count k {bs} h =
    let same : bs ≡ xor_words k (take (size * count) src) = ground arith in
    omega (
      arith,
      ap length same,
      length-xor_words k (take (size * count) src),
      length-take (size * count) src,
    )
