-- ===== src/Verification/Attributes/Svn.antt =====
-- Security versions as a verifier prints them.
use trustflow.Base.{ℕ, ◌^◌, ◌<◌, ◌≤◌, ◌≡◌, ◌↔◌, inl, inr, arith, true, false, Str}
use trustflow.Base.Int.{ℤ, pos, ◌≤ℤ◌}
use trustflow.Base.Decimal.{to_string}
use trustflow.Error.{ok}
use trustflow.External.{External, IsExternal}
use trustflow.Verification.Stoi.{value}
use trustflow.Verification.Stoi.Laws.{stoi-to_string, to_string_some}
use trustflow.Verification.Attributes.{is_greater_equal_than}
use trustflow.Verification.Attributes.Policy.{AllowsSvn}
use trustflow.Verification.Attributes.Compare.{svn-Tests}

value_pos : {m : ℤ} {n : ℕ} → value m ≡ value (pos n) → m ≡ pos n
value_pos h = cc

AllowsSvn-to_string :
    (a e : ℕ) → a < 2 ^ 31 → e < 2 ^ 31 → AllowsSvn (to_string e) (to_string a) ↔ (e ≤ a)
AllowsSvn-to_string a e ha he = (
  λ h. elim h [
    | inl none_asked ↦ absurd (to_string_some e none_asked)
    | inr (m, n, p, q, le) ↦
        let m_lem : m ≡ pos e = value_pos (cc (p, stoi-to_string e he)) in
        let n_lem : n ≡ pos a = value_pos (cc (q, stoi-to_string a ha)) in
        let le' : pos e ≤ℤ pos a = rw (m_lem, n_lem) at le in omega (arith, le')
  ],
  λ le. inr (pos e, pos a, stoi-to_string e he, stoi-to_string a ha, omega (arith, le)),
)

-- Of two numbers that fit an `int`, printed in decimal, the actual version is accepted if and only if
-- it is at least the expected one.
pub is_greater_equal_than-to_string :
    (X : External) (name m : Str) (a e : ℕ)
    → IsExternal X
    → a < 2 ^ 31
    → e < 2 ^ 31
    → (is_greater_equal_than X name (to_string a) (to_string e) false m ≡ ok (true, m)) ↔ (e ≤ a)
is_greater_equal_than-to_string X name m a e L ha he =
    elim (svn-Tests X L name (to_string a) (to_string e) m) [
      | inl (i, r) ↦ (λ _. (AllowsSvn-to_string a e ha he).0 i, λ _. r)
      | inr (i, (m', r)) ↦ (λ h. cc (h, r), λ le. absurd (i ((AllowsSvn-to_string a e ha he).1 le)))
    ]
