-- ===== src/Collateral/Laws.antt =====
-- The collateral that is fetched is the one that a verifier gives back.
use trustflow.Base.{
  ℕ, ◌+◌, ◌-◌, ◌%◌, ◌^◌, ◌<◌, ◌≡◌, arith, leb, false, str_eq, [], ◌∷◌, ◌++◌, Bytes, Str, length,
  length-append, take-append, drop-append, le→leb,
}
use trustflow.Error.{ok, undefined}
use trustflow.Attestation.{view}
use trustflow.Collateral.{char_array_2_string}

-- A part of a list that is inside it.
pub view_middle :
    (front mid back : Bytes) → view (front ++ (mid ++ back)) (length front) (length mid) ≡ ok mid
unfolding view
view_middle front mid back =
    let e : length (front ++ (mid ++ back)) ≡ length front + (length mid + length back) =
      omega (arith, length-append front (mid ++ back), length-append mid back) in
    rw (
      le→leb (length front + length mid) (length (front ++ (mid ++ back))) (omega (arith, e)),
      drop-append front (mid ++ back),
      take-append mid back,
    )

last_index : (n : ℕ) → n + 1 < 2 ^ 32 → (n + 1 + (2 ^ 32 - 1)) % 2 ^ 32 ≡ n
last_index n h = omega arith

-- Of a terminated string with the size that counts its terminator, which fits 32 bits, the string is
-- kept.
pub char_array_2_string-terminated :
    (s : Str) → length s + 1 < 2 ^ 32 → char_array_2_string (s ++ 0 ∷ []) (length s + 1) ≡ ok s
unfolding char_array_2_string str_eq
char_array_2_string-terminated s h =
    rw (last_index (length s) h, view_middle s (0 ∷ []) []) (view_middle [] s (0 ∷ []))

-- A size of 0 makes the last index wrap around: it is read past the end of every buffer shorter
-- than 4 GiB.
pub char_array_2_string_empty :
    (buf : Bytes) → length buf < 2 ^ 32 → char_array_2_string buf 0 ≡ undefined
unfolding char_array_2_string view
char_array_2_string_empty buf h =
    let past : leb (4294967295 + 1) (length buf) ≡ false = ground arith in rw past
