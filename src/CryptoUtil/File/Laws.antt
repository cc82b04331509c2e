-- ===== src/CryptoUtil/File/Laws.antt =====
-- Whole files: what encryption writes, and that decryption gives it back.
use trustflow.Base.{
  ℕ, zero, suc, ◌-◌, ◌*◌, ◌≤◌, ◌≡◌, refl, ap, ◌∙◌, [], ◌++◌, append_assoc, arith, Bytes, length,
  length-append, take, drop, take-append-drop, length-take, length-drop,
}
use trustflow.Error.{ok}
use trustflow.CryptoUtil.Platform.{Platform, IsPlatform}
use trustflow.CryptoUtil.Block.Laws.{
  IsKey, sealed_block, length-sealed_block, decrypt_data_block-sealed_block, encrypt_data_block-at,
}
use trustflow.CryptoUtil.File.{packets, header_writes, encrypt_blocks, decrypt_blocks}

-- The data of the first `n` blocks, and what follows it.
pub front : ℕ → Bytes → Bytes
front zero c = []
front (suc n) c = take 8126 c ++ front n (drop 8126 c)

pub back : ℕ → Bytes → Bytes
back zero c = c
back (suc n) c = back n (drop 8126 c)

pub front-append-back : (n : ℕ) (c : Bytes) → front n c ++ back n c ≡ c
unfolding front back
front-append-back zero c = refl
front-append-back (suc n) c =
    append_assoc (take 8126 c) (front n (drop 8126 c)) (back n (drop 8126 c))
    ∙ ap (◌++◌ (take 8126 c)) (front-append-back n (drop 8126 c))
    ∙ take-append-drop 8126 c

pub length-back : (n : ℕ) (c : Bytes) → length (back n c) ≡ length c - n * 8126
unfolding back
length-back zero c = omega arith
length-back (suc n) c = omega (arith, length-back n (drop 8126 c), length-drop 8126 c)

length-chunk : (n : ℕ) (c : Bytes) → suc n * 8126 ≤ length c → length (take 8126 c) ≡ 8126
length-chunk n c h = omega (arith, length-take 8126 c)

module _ (P : Platform) (key : Bytes) (rand : ℕ → Bytes) where
  -- The blocks that are written for the first `n` chunks, from block `i` on.
  unfoldable pub sealed_blocks : ℕ → ℕ → Bytes → Bytes
  sealed_blocks zero i c = []
  sealed_blocks (suc n) i c =
      sealed_block P key (rand i) (take 8126 c) ++ sealed_blocks n (suc i) (drop 8126 c)

  -- The file that is written for the plaintext `c`.
  unfoldable pub sealed_file : Bytes → Bytes
  sealed_file c =
      let n = packets (length c) - 1 in
      header_writes (packets (length c))
      ++ (sealed_blocks n 0 c ++ sealed_block P key (rand n) (back n c))

module _ (P : Platform) (L : IsPlatform P) (key : Bytes) (k : IsKey key) (rand : ℕ → Bytes)
    (fresh : (i : ℕ) → length (rand i) ≡ 12) where
  pub length-sealed_blocks :
      (n i : ℕ) (c : Bytes)
      → n * 8126 ≤ length c
      → length (sealed_blocks P key rand n i c) ≡ n * 8192
  unfolding sealed_blocks
  length-sealed_blocks zero i c h = omega arith
  length-sealed_blocks (suc n) i c h =
      length-append (sealed_block P key (rand i) (take 8126 c)) _
      ∙ omega (
        arith,
        length-sealed_block P L key (rand i) (take 8126 c) k (fresh i),
        length-chunk n c h,
        length-sealed_blocks n (suc i) (drop 8126 c) (omega (arith, length-drop 8126 c)),
      )

  pub encrypt_blocks-at :
      (n i : ℕ) (c : Bytes) (m : ℕ) (s : P.In)
      → n * 8126 ≤ length c
      → L.At m c s
      → (s' : P.In) × (encrypt_blocks P rand n i s 8126 key
          ≡ ok (sealed_blocks P key rand n i c, s'))
        × L.At m (back n c) s'
  unfolding encrypt_blocks sealed_blocks back
  encrypt_blocks-at zero i c m s h a = (s, refl, a)
  encrypt_blocks-at (suc n) i c m s h a =
      let (s1, e1, a1) =
        encrypt_data_block-at P L m (take 8126 c) (drop 8126 c) s key (rand i) k
          (rw take-append-drop a) in
      let (s2, e2, a2) =
        encrypt_blocks-at n (suc i) (drop 8126 c) m s1 (omega (arith, length-drop 8126 c)) a1 in
      (s2, rw (rw (length-chunk n c h) at e1) (rw e2), a2)

  pub decrypt_blocks-at :
      (n i : ℕ) (c tail : Bytes) (m : ℕ) (t : P.In)
      → n * 8126 ≤ length c
      → L.At m (sealed_blocks P key rand n i c ++ tail) t
      → (t' : P.In) × (decrypt_blocks P n t 8192 key ≡ ok (front n c, t')) × L.At m tail t'
  unfolding decrypt_blocks sealed_blocks front
  decrypt_blocks-at zero i c tail m t h a = (t, refl, a)
  decrypt_blocks-at (suc n) i c tail m t h a =
      let block = sealed_block P key (rand i) (take 8126 c) in
      let size : length block ≡ 8192 =
        length-sealed_block P L key (rand i) (take 8126 c) k (fresh i)
        ∙ omega (arith, length-chunk n c h) in
      let (t1, e1, a1) = L.read-at m block _ t (rw append_assoc at a) in
      let (t2, e2, a2) =
        decrypt_blocks-at n (suc i) (drop 8126 c) tail m t1 (omega (arith, length-drop 8126 c))
          a1 in
      (
        t2,
        rw (rw size at e1) (
            rw (decrypt_data_block-sealed_block P L key (rand i) (take 8126 c) k (fresh i))
              (rw e2)),
        a2,
      )
