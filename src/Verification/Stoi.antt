-- ===== src/Verification/Stoi.antt =====
-- `std::stoi` of the C++ standard library, in base 10.
pub mod Laws
use trustflow.Base.{
  ℕ, zero, suc, ◌+◌, ◌-◌, ◌*◌, ◌^◌, Bool, ◌&&◌, ◌||◌, [], ◌∷◌, Str, leb, ◌==◌, if◌then◌else◌,
}
use trustflow.Base.Int.{ℤ, pos, negsuc}

pub data Stoi : Type 0 where
  value : ℤ → Stoi
  invalid_argument : Stoi
  out_of_range : Stoi

is_space : ℕ → Bool
is_space c = c == 32 || (leb 9 c && leb c 13)

is_digit : ℕ → Bool
is_digit c = leb b'0' c && leb c b'9'

skip_spaces : Str → Str
skip_spaces [] = []
skip_spaces (c ∷ s) = let rest = skip_spaces s in if is_space c then rest else c ∷ s

-- The number that the leading digits write, after `acc`.
digits : ℕ → Str → ℕ
digits acc [] = acc
digits acc (c ∷ s) = let rest = digits (10 * acc + (c - b'0')) s in if is_digit c then rest else acc

negate : ℕ → ℤ
negate zero = pos 0
negate (suc n) = negsuc n

-- An `int` has 32 bits.
unsigned_part : Bool → Str → Stoi
unsigned_part negative [] = invalid_argument
unsigned_part negative (c ∷ s) =
    let n = digits 0 (c ∷ s) in
    if is_digit c
    then (if negative
        then (if leb n (2 ^ 31) then value (negate n) else out_of_range)
        else (if leb n (2 ^ 31 - 1) then value (pos n) else out_of_range))
    else invalid_argument

signed_part : Str → Stoi
signed_part [] = invalid_argument
signed_part (c ∷ s) =
    if c == b'-'
    then unsigned_part Bool.true s
    else if c == b'+'
    then unsigned_part Bool.false s
    else unsigned_part Bool.false (c ∷ s)

unfoldable pub stoi : Str → Stoi
unfolding is_space is_digit skip_spaces digits negate unsigned_part signed_part
stoi s = signed_part (skip_spaces s)
