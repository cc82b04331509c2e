-- ===== src/Proxy/Jwe/Cert.antt =====
-- utils/crypto_util.cc: certificates from PEM to DER, and the identity of a party.
use trustflow.Base.{
  ◌+◌, String, ℕ, zero, suc, ◌≤◌, ◌<◌, ◌≡◌, refl, sym, ap, ◌∙◌, arith, [], ◌∷◌, ◌++◌, Option, none,
  some, Bytes, Str, is_empty, length, length-append, if◌then◌else◌,
}
use trustflow.Error.{Result, ok, undefined, yacl_throw, ◌>>=◌}

-- What is taken from OpenSSL: a certificate is read from a memory BIO, and written to one.
pub record Pem : Type 1 where
  pub X509 : Type 0
  pub Bio : Type 0
  pub bio_new_mem_buf : Str → Option Bio
  pub pem_read_bio_x509 : Bio → Option X509
  pub bio_new : Option Bio
  pub i2d_x509_bio : Bio → X509 → Option Bio
  -- The bytes that a call puts to the buffer, and the BIO that is left; none if it returns 0 or less.
  pub bio_read : Bio → ℕ → Bytes × Bio

-- The documented behaviour of a memory BIO with the text it holds.
pub record IsPem (C : Pem) : Type 1 where
  pub Holds : Bytes → C.Bio → Type 0
  -- A read takes off a part in front, of at most the size of the buffer; nothing only if nothing is left.
  pub bio_read-holds :
      (b : C.Bio) (text : Bytes) (size : ℕ)
      → Holds text b
      → (back : Bytes) × (text ≡ (C.bio_read b size).0 ++ back)
        × (length (C.bio_read b size).0 ≤ size)
        × Holds back (C.bio_read b size).1
        × (0 < size → 0 < length text → 0 < length (C.bio_read b size).0)

-- `kBufSize`
abbrev pub buf_size : ℕ
buf_size = 4096

-- `YACL_ENFORCE(p != nullptr, template)`, and then the object.
unfoldable pub not_null {ℓ} : {A : Type ℓ} → Option A → String → Result A
not_null none template = yacl_throw template []
not_null (some a) template = ok a

-- One round, given what the later ones give.
read_round :
    (w back der : Bytes) (rest : Result Bytes)
    → der ≡ w ++ back
    → (0 < length der → 0 < length w)
    → (0 < length w → rest ≡ ok back)
    → (if is_empty w then ok [] else rest >>= λ more. ok (w ++ more)) ≡ ok der
read_round [] back [] rest split some_read later = refl
read_round [] back (c ∷ der) rest split some_read later =
    absurd (omega (arith, some_read (omega arith)))
read_round (c ∷ w) back der rest split some_read later =
    rw (later (omega arith)) (ap ok (sym split))

module _ (C : Pem) where
  -- The rounds of the loop, at most `fuel` of them.
  unfoldable pub read_all : ℕ → C.Bio → Result Bytes
  read_all zero b = undefined
  read_all (suc fuel) b =
      let (buffer, b) = C.bio_read b buf_size in
      let rest = read_all fuel b in
      if is_empty buffer then ok [] else rest >>= λ more. ok (buffer ++ more)

  unfoldable pub x509_cert_pem_to_der : ℕ → Str → Result Bytes
  x509_cert_pem_to_der fuel pem_cert = do
    cert_bio ← not_null (C.bio_new_mem_buf pem_cert) "cert_bio is null"
    cert ← not_null (C.pem_read_bio_x509 cert_bio) "cert is null"
    der_bio ← not_null C.bio_new "der_bio is null"
    der_bio ← not_null (C.i2d_x509_bio der_bio cert) "Failed to write DER certificate."
    read_all fuel der_bio

  module _ (L : IsPem C) where
    read_all-holds :
        (fuel : ℕ) (b : C.Bio) (der : Bytes)
        → L.Holds der b
        → length der < fuel
        → read_all fuel b ≡ ok der
    unfolding read_all
    read_all-holds zero b der h small = absurd (omega arith)
    read_all-holds (suc fuel) b der h small =
        let (back, split, le, h', some_read) = L.bio_read-holds b der 4096 h in
        let size : length der ≡ length (C.bio_read b 4096).0 + length back =
          ap length split ∙ length-append (C.bio_read b 4096).0 back in
        read_round (C.bio_read b 4096).0 back der _ split (some_read (omega arith))
          λ found. read_all-holds fuel _ back h' (omega (arith, size))

    -- The loop ends, and gives the whole certificate: if OpenSSL reads a certificate from the text
    -- and writes `der` for it, then any number of rounds above the length of `der` is enough.
    pub x509_cert_pem_to_der-holds :
        (fuel : ℕ) (pem_cert : Str) (der : Bytes) (cert_bio empty der_bio : C.Bio) (cert : C.X509)
        → C.bio_new_mem_buf pem_cert ≡ some cert_bio
        → C.pem_read_bio_x509 cert_bio ≡ some cert
        → C.bio_new ≡ some empty
        → C.i2d_x509_bio empty cert ≡ some der_bio
        → L.Holds der der_bio
        → length der < fuel
        → x509_cert_pem_to_der fuel pem_cert ≡ ok der
    unfolding x509_cert_pem_to_der not_null
    x509_cert_pem_to_der-holds fuel pem_cert der cert_bio empty der_bio cert e1 e2 e3 e4 h small =
        simp (e1, e2, e3, e4) (read_all-holds fuel der_bio der h small)
