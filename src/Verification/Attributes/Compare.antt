-- ===== src/Verification/Attributes/Compare.antt =====
-- What the comparison of one attribute does, and that of several in a row.
use trustflow.Base.{
  ℕ, ◌≡◌, ◌≢◌, ◌↔◌, ◌⊎◌, inl, inr, refl, ap, Bool, true, false, [], ◌∷◌, arith, Str, length, codes,
  if◌then◌else◌, Bool-cases, leb→le, le→leb,
}
use trustflow.Base.Int.{ℤ, ◌≤ℤ◌, leb_ℤ}
use trustflow.Error.{Result, ok, throw, undefined}
use trustflow.External.{External, IsExternal}
use trustflow.Verification.Stoi.{Stoi, value, invalid_argument, out_of_range, stoi}
use trustflow.Verification.Attributes.{
  Attributes, is_str_equal, str_to_boolean, is_bool_equal, is_greater_equal_than, compare_stoi,
  same, check, pubkey_is_match, identity_is_match,
}
use trustflow.Verification.Attributes.Policy.{
  throws, Allows, AllowsSvn, IdentityMatches, AllowsFlag, AllowsKey, DataMatches,
}

-- A comparison that passes exactly if `I` holds and throws if it does not.
abbrev pub Enforces : Result (Bool × Str) → Str → Type 0 → Type 0
Enforces r m I = (I × (r ≡ ok (true, m))) ⊎ ((¬ I) × (throws r ≡ true))

-- A comparison that passes exactly if `I` holds and answers "no" if it does not.
abbrev pub Tests : Result (Bool × Str) → Str → Type 0 → Type 0
Tests r m I = (I × (r ≡ ok (true, m))) ⊎ ((¬ I) × ((m' : Str) × (r ≡ ok (false, m'))))

check-Enforces :
    {I J : Type 0} (r : Result (Bool × Str)) (k : Str → Result (Bool × Str)) (m : Str)
    → Enforces r m I
    → Enforces (k m) m J
    → Enforces (check r k) m (I × J)
check-Enforces r k m (inl (i, e)) (inl (j, f)) = inl ((i, j), rw e f)
check-Enforces r k m (inl (i, e)) (inr (j, f)) = inr (λ (x, y). j y, rw e f)
check-Enforces (throw x) k m (inr (i, e)) _ = inr (λ (x, y). i x, refl)
check-Enforces (ok x) k m (inr (i, e)) _ = cc
check-Enforces undefined k m (inr (i, e)) _ = cc

Enforces-map :
    {I J : Type 0} (r : Result (Bool × Str)) (m : Str) → I ↔ J → Enforces r m I → Enforces r m J
Enforces-map r m t (inl (i, e)) = inl (t.0 i, e)
Enforces-map r m t (inr (i, e)) = inr (λ j. i (t.1 j), e)

bool-Tests :
    {I : Type 0} (b : Bool) (m m' : Str)
    → (b ≡ true) ↔ I
    → Tests (ok (b, (if b then m else m'))) m I
bool-Tests true m m' h = inl (h.0 refl, refl)
bool-Tests false m m' h = inr (λ i. cc (h.1 i), (m', refl))

same_iff : (p q : Bool) → (same p q ≡ true) ↔ (p ≡ q)
same_iff true true = (λ _. refl, λ _. refl)
same_iff true false = (λ h. cc, λ h. cc)
same_iff false true = (λ h. cc, λ h. cc)
same_iff false false = (λ _. refl, λ _. refl)

leb_ℤ_iff : (m n : ℤ) → (leb_ℤ m n ≡ true) ↔ (m ≤ℤ n)
leb_ℤ_iff m n = (λ h. leb→le _ _ h, λ h. le→leb _ _ h)

nonempty_or : {I : Type 0} (c : ℕ) (s : Str) → I ↔ (((c ∷ s) ≡ []) ⊎ I)
nonempty_or c s = (inr, λ h. elim h [ inl e ↦ cc | inr i ↦ i ])

Tests-map : {I J : Type 0} (r : Result (Bool × Str)) (m : Str) → I ↔ J → Tests r m I → Tests r m J
Tests-map r m t (inl (i, e)) = inl (t.0 i, e)
Tests-map r m t (inr (i, e)) = inr (λ j. i (t.1 j), e)

abbrev SvnValues : Stoi → Stoi → Type 0
SvnValues se sa = (m : ℤ) × (n : ℤ) × (se ≡ value m) × (sa ≡ value n) × (m ≤ℤ n)

value-injective : {x y : ℤ} → value x ≡ value y → x ≡ y
value-injective h = cc

compare_stoi-Tests :
    (X : External) (se sa : Stoi) (name a e m : Str)
    → Tests (ok (compare_stoi X se sa name a e m)) m (SvnValues se sa)
unfolding compare_stoi
compare_stoi-Tests X (value x) (value y) name a e m = bool-Tests (leb_ℤ x y) m _ (
  (λ h. (x, y, refl, refl, (leb_ℤ_iff x y).0 h)),
  (λ (p, q, f, g, h). (leb_ℤ_iff x y).1 (rw (value-injective f, value-injective g) h)),
)
compare_stoi-Tests X (value x) invalid_argument name a e m =
    inr (λ (p, q, f, g, h). cc g, (_, refl))
compare_stoi-Tests X (value x) out_of_range name a e m = inr (λ (p, q, f, g, h). cc g, (_, refl))
compare_stoi-Tests X invalid_argument sa name a e m = inr (λ (p, q, f, g, h). cc f, (_, refl))
compare_stoi-Tests X out_of_range sa name a e m = inr (λ (p, q, f, g, h). cc f, (_, refl))

module _ (X : External) (L : IsExternal X) where
  str-Enforces : (name a e m : Str) → Enforces (is_str_equal X name a e false m) m (Allows e a)
  unfolding is_str_equal
  str-Enforces name a [] m = inl (inl refl, refl)
  str-Enforces name a (c ∷ e) m = elim (Bool-cases (X.equals_ignore_case (c ∷ e) a)) [
    | inl h ↦ inl (inr ((L.equals_ignore_case_iff (c ∷ e) a).0 h), rw h)
    | inr h ↦ inr (refuse h, rw h)
  ]
    where
      refuse : X.equals_ignore_case (c ∷ e) a ≡ false → ¬ (Allows (c ∷ e) a)
      refuse h (inl f) = cc
      refuse h (inr f) = cc ((L.equals_ignore_case_iff (c ∷ e) a).1 f)

  pub identity-Enforces :
      (a e : Attributes) (m : Str) → Enforces (identity_is_match X a e m) m (IdentityMatches a e)
  unfolding identity_is_match
  identity-Enforces a e m =
      Enforces-map (identity_is_match X a e m) m
        (
          (λ (h1, (h2, (h3, (h4, (h5, (h6, (h7, (h8, (h9, h10))))))))). record {
            platform = h1;
            platform_hw_version = h2;
            platform_sw_version = h3;
            secure_flags = h4;
            platform_measurement = h5;
            boot_measurement = h6;
            ta_measurement = h7;
            ta_dyn_measurement = h8;
            signer = h9;
            prod_id = h10;
          }),
          (λ h. (
            h.platform,
            (
              h.platform_hw_version,
              (
                h.platform_sw_version,
                (
                  h.secure_flags,
                  (
                    h.platform_measurement,
                    (
                      h.boot_measurement,
                      (h.ta_measurement, (h.ta_dyn_measurement, (h.signer, h.prod_id))),
                    ),
                  ),
                ),
              ),
            ),
          )),
        )
        (step _ _ _ _ (
          step _ _ _ _ (
            step _ _ _ _ (
              step _ _ _ _ (
                step _ _ _ _ (step _ _ _ _ (step _ _ _ _ (step _ _ _ _ (step _ _ _ _ (last))))))))))
    where
      step :
          (name x y : Str) {J : Type 0} (k : Str → Result (Bool × Str))
          → Enforces (k m) m J
          → Enforces (check (is_str_equal X name x y false m) k) m (Allows y x × J)
      step name x y k h = check-Enforces _ k m (str-Enforces name x y m) h

      last :
          Enforces
            (is_str_equal X (codes "PRODID") a.hex_prod_id e.hex_prod_id false m)
            m
            (Allows e.hex_prod_id a.hex_prod_id)
      last = str-Enforces (codes "PRODID") a.hex_prod_id e.hex_prod_id m

  pub svn-Tests :
      (name a e m : Str) → Tests (is_greater_equal_than X name a e false m) m (AllowsSvn e a)
  unfolding is_greater_equal_than
  svn-Tests name a [] m = inl (inl refl, refl)
  svn-Tests name a (c ∷ e) m =
      Tests-map _ m (nonempty_or c e)
        (compare_stoi-Tests X (stoi (c ∷ e)) (stoi a) name a (c ∷ e) m)

  pub flag-Tests :
      (name a e m : Str) → Tests (is_bool_equal X name a e false m) m (AllowsFlag X e a)
  unfolding is_bool_equal
  flag-Tests name a [] m = inl (inl refl, refl)
  flag-Tests name a (c ∷ e) m =
      let p = str_to_boolean X (c ∷ e) in
      let q = str_to_boolean X a in
      Tests-map _ m (nonempty_or c e) (bool-Tests (same p q) m _ (same_iff p q))

  hash-ne-nil : (s : Str) → X.bytes_to_hex_string (X.sha256 s) ≢ []
  hash-ne-nil s e = omega (
    arith,
    ap {B = ℕ} (λ (t : Str). length t) e,
    L.length-bytes_to_hex_string (X.sha256 s),
    L.length-sha256 s,
  )

  key_iff :
      (a : Str) (c : ℕ) (e : Str)
      → Allows (X.bytes_to_hex_string (X.sha256 (c ∷ e))) a ↔ AllowsKey X (c ∷ e) a
  key_iff a c e = (
    (λ h. elim h [ inl f ↦ absurd (hash-ne-nil (c ∷ e) f) | inr f ↦ inr f ]),
    (λ h. elim h [ inl f ↦ cc | inr f ↦ inr f ]),
  )

  pubkey-Enforces : (a e m : Str) → Enforces (pubkey_is_match X a e m) m (AllowsKey X e a)
  unfolding pubkey_is_match
  pubkey-Enforces a [] m = inl (inl refl, refl)
  pubkey-Enforces a (c ∷ e) m =
      Enforces-map _ m (key_iff a c e) (str-Enforces (codes "PUBLICKEY") a _ m)

  pub data_is_match-Enforces :
      (a e : Attributes) (m : Str)
      → Enforces
          (check (is_str_equal X (codes "USERDATA") a.hex_user_data e.hex_user_data false m) λ m.
            check
              (pubkey_is_match X a.hex_hash_or_pem_pubkey e.hex_hash_or_pem_pubkey m)
              λ m. is_str_equal X (codes "NONCE") a.hex_nonce e.hex_nonce false m)
          m
          (DataMatches X a e)
  data_is_match-Enforces a e m =
      Enforces-map _ m
        (
          (λ (h1, (h2, h3)). record { user_data = h1; pubkey = h2; nonce = h3 }),
          (λ h. (h.user_data, (h.pubkey, h.nonce))),
        )
        (check-Enforces _ _ m (str-Enforces _ _ _ m)
          (check-Enforces _ _ m (pubkey-Enforces _ _ m) (str-Enforces _ _ _ m)))
