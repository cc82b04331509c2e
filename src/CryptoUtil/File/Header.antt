-- ===== src/CryptoUtil/File/Header.antt =====
-- The checks on the file header: exactly the headers whose sizes fit, with no wrap-around.
use trustflow.Base.{ℕ, ◌-◌, ◌*◌, ◌/◌, ◌^◌, ◌≤◌, ◌<◌, ◌≡◌, ◌↔◌, arith}
use trustflow.Error.{ok}
use trustflow.CryptoUtil.File.{mul64, packets, check_header}
use native.Mathlib.Nat.{mod-eq_of_lt, div-add-mod, mul-div_left, mul_comm}

-- What the checks are meant to ensure of the header's packet count and block length.
pub record Fits (file_len packet_cnt block_len : ℕ) : Type 0 where
  pub nonzero : 0 < block_len
  pub no_overflow : packet_cnt * block_len < 2 ^ 64
  pub whole_blocks : (packet_cnt - 1) * block_len ≤ file_len - 20
  pub last_block : file_len - 20 ≤ packet_cnt * block_len

mul64_exact : (a b : ℕ) → 0 < b → mul64 a b / b ≡ a → a * b < 2 ^ 64
mul64_exact a b h e = grind (arith, div-add-mod (mul64 a b) b)

abbrev Passed : ℕ → ℕ → ℕ → Type 0
Passed n cnt bl =
    (0 < bl)
    × (mul64 cnt bl / bl ≡ cnt)
    × (mul64 (cnt - 1) bl / bl ≡ cnt - 1)
    × (mul64 (cnt - 1) bl ≤ n - 20)
    × (n - 20 ≤ mul64 bl cnt)

passed : (n cnt bl : ℕ) → check_header n cnt bl ≡ ok tt → Passed n cnt bl
unfolding check_header
passed n cnt bl h = ground arith

check_header-eq_ok : (n cnt bl : ℕ) → Passed n cnt bl → check_header n cnt bl ≡ ok tt
unfolding check_header
check_header-eq_ok n cnt bl h = ground arith

fewer_fit : (cnt bl : ℕ) → cnt * bl < 2 ^ 64 → (cnt - 1) * bl < 2 ^ 64
fewer_fit cnt bl h = grind arith

-- The checks pass exactly when the sizes fit: no product wraps around 64 bits, the blocks before the
-- last lie in the file, and the last one is not longer than a block.
pub check_header_iff : (n cnt bl : ℕ) → (check_header n cnt bl ≡ ok tt) ↔ Fits n cnt bl
check_header_iff n cnt bl = (fits, checked)
  where
    fits : check_header n cnt bl ≡ ok tt → Fits n cnt bl
    fits e =
        let (pos, full, less, whole, last) = passed n cnt bl e in
        let a = mul64_exact cnt bl pos full in
        let b = mul64_exact (cnt - 1) bl pos less in
        record {
          nonzero = pos;
          no_overflow = a;
          whole_blocks = omega (arith, mod-eq_of_lt b, whole);
          last_block = omega (arith, mod-eq_of_lt a, mul_comm bl cnt, last);
        }

    checked : Fits n cnt bl → check_header n cnt bl ≡ ok tt
    checked f =
        let a = mod-eq_of_lt f.no_overflow in
        let b : mul64 (cnt - 1) bl ≡ (cnt - 1) * bl =
          mod-eq_of_lt (fewer_fit cnt bl f.no_overflow) in
        check_header-eq_ok n cnt bl (
          f.nonzero,
          rw a (mul-div_left cnt f.nonzero),
          rw b (mul-div_left (cnt - 1) f.nonzero),
          omega (arith, b, f.whole_blocks),
          omega (arith, a, mul_comm bl cnt, f.last_block),
        )

pub packets_bounds :
    (n : ℕ) → 0 < n → (1 ≤ packets n) × ((packets n - 1) * 8126 < n) × (n ≤ packets n * 8126)
unfolding packets
packets_bounds n h = ground arith
