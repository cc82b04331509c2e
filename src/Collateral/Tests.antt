-- ===== src/Collateral/Tests.antt =====
-- The theorems on collateral at concrete strings.
use trustflow.Base.{◌≡◌, arith, codes}
use trustflow.Error.{undefined}
use trustflow.Collateral.{char_array_2_string}
use trustflow.Collateral.Laws.{char_array_2_string_empty}

read_before_start : char_array_2_string (codes "chain") 0 ≡ undefined
read_before_start = char_array_2_string_empty (codes "chain") (omega arith)
