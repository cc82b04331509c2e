-- ===== src/Base/Decimal.antt =====
-- `std::to_string` of an unsigned number.
use trustflow.Base.{ℕ, zero, suc, ◌+◌, ◌/◌, ◌%◌, ltb, [], ◌∷◌, Str, if◌then◌else◌}

-- `decimal_digits fuel n acc`: the digits of `n` in front of `acc`, at most `fuel + 1` of them.
unfoldable pub decimal_digits : ℕ → ℕ → Str → Str
decimal_digits zero n acc = (48 + n % 10) ∷ acc
decimal_digits (suc fuel) n acc =
    let acc = (48 + n % 10) ∷ acc in
    let rest = decimal_digits fuel (n / 10) acc in if ltb n 10 then acc else rest

-- Twenty digits hold every 64-bit number.
unfoldable pub to_string : ℕ → Str
unfolding decimal_digits
to_string n = decimal_digits 19 n []
