-- ===== src/Verification/Attributes/Match.antt =====
-- What one comparison of all attributes does.
use trustflow.Base.{◌≡◌, inl, inr, refl, Bool, true, false, Str, codes}
use trustflow.Error.{Result, ok, throw, undefined}
use trustflow.External.{External, IsExternal}
use trustflow.Verification.Attributes.{
  Attributes, is_str_equal, is_bool_equal, is_greater_equal_than, check, pubkey_is_match,
  identity_is_match, attrs_is_match,
}
use trustflow.Verification.Attributes.Policy.{throws, Matches, Skips, Aborts}
use trustflow.Verification.Attributes.Compare.{
  identity-Enforces, svn-Tests, flag-Tests, data_is_match-Enforces,
}

-- What one comparison does: it matches, or answers "no", or throws.
pub data Outcome (X : External) (a e : Attributes) (m : Str) (r : Result (Bool × Str))
    : Type 0 where
  matched : Matches X a e → r ≡ ok (true, m) → Outcome X a e m r
  skipped : Skips X a e → (m' : Str) → r ≡ ok (false, m') → Outcome X a e m r
  aborted : Aborts X a e → throws r ≡ true → Outcome X a e m r

module _ (X : External) (L : IsExternal X) (a e : Attributes) (m : Str) where
  abbrev rest : Str → Result (Bool × Str)
  rest m =
      check (is_greater_equal_than X (codes "ISVSVN") a.str_min_isvsvn e.str_min_isvsvn false m)
        λ m.
          check
            (is_bool_equal X (codes "DEBUGDISABLED") a.bool_debug_disabled e.bool_debug_disabled
              false m)
            λ m.
              check (is_str_equal X (codes "USERDATA") a.hex_user_data e.hex_user_data false m) λ m.
                check (pubkey_is_match X a.hex_hash_or_pem_pubkey e.hex_hash_or_pem_pubkey m)
                  λ m. is_str_equal X (codes "NONCE") a.hex_nonce e.hex_nonce false m

  throws-check :
      (r : Result (Bool × Str)) (k : Str → Result (Bool × Str))
      → throws r ≡ true
      → throws (check r k) ≡ true
  throws-check (throw x) k h = refl
  throws-check (ok x) k h = cc
  throws-check undefined k h = cc

  -- One comparison matches exactly if all attributes do.
  pub attrs_is_match-Outcome : Outcome X a e m (attrs_is_match X a e m)
  unfolding attrs_is_match
  attrs_is_match-Outcome = elim (identity-Enforces X L a e m) [
    | inr (h, t) ↦ aborted (inl h) (throws-check (identity_is_match X a e m) rest t)
    | inl (h, t) ↦ elim (svn-Tests X L (codes "ISVSVN") a.str_min_isvsvn e.str_min_isvsvn m) [
      | inr (h', (m', t')) ↦ skipped (h, λ p. h' p.0) m' (rw t (rw t'))
      | inl (h', t') ↦
          elim (flag-Tests X L (codes "DEBUGDISABLED") a.bool_debug_disabled e.bool_debug_disabled
            m) [
              | inr (h'', (m', t'')) ↦ skipped (h, λ p. h'' p.1) m' (rw t (rw t' (rw t'')))
              | inl (h'', t'') ↦ elim (data_is_match-Enforces X L a e m) [
                | inl (g, u) ↦
                    matched
                      (record { identity = h; isvsvn = h'; debug_disabled = h''; report_data = g })
                      (rw t (rw t' (rw t'' u)))
                | inr (g, u) ↦ aborted (inr (h, h', h'', g)) (rw t (rw t' (rw t'' u)))
              ]
            ]
    ]
  ]
