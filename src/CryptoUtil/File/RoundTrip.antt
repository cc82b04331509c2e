-- ===== src/CryptoUtil/File/RoundTrip.antt =====
-- `DecryptFile` after `EncryptFile`.
use trustflow.Base.{
  ℕ, ◌∷◌, ◌+◌, ◌-◌, ◌*◌, ◌%◌, ◌^◌, ◌≤◌, ◌<◌, ◌≡◌, ◌≢◌, ap, ◌∙◌, [], ◌++◌, append_assoc, append-nil,
  arith, Bytes, Str, length, length-append, str_eq_of_ne, le→leb, lt→ltb,
}
use trustflow.Error.{ok, throw, error}
use trustflow.CryptoUtil.Platform.{Platform, IsPlatform}
use trustflow.CryptoUtil.Word.{bytes_to_int, int_to_bytes}
use trustflow.CryptoUtil.Word.Laws.{length-int_to_bytes, bytes_to_int-int_to_bytes}
use trustflow.CryptoUtil.Block.{encrypt_data_block, decrypt_data_block}
use trustflow.CryptoUtil.Block.Laws.{
  IsKey, sealed_block, length-sealed_block, decrypt_data_block-sealed_block, encrypt_data_block-at,
}
use trustflow.CryptoUtil.File.{
  mul64, packets, header_writes, encrypt_blocks, encrypt_file, check_header, decrypt_blocks,
  read_header, read_blocks, decrypt_file,
}
use trustflow.CryptoUtil.File.Header.{check_header_iff, packets_bounds}
use trustflow.CryptoUtil.File.Laws.{
  front, back, front-append-back, length-back, sealed_blocks, sealed_file, length-sealed_blocks,
  encrypt_blocks-at, decrypt_blocks-at,
}

module _ (P : Platform) (rand : ℕ → Bytes) (fs : P.Fs) (src dest : Str) (key : Bytes) where
  encrypt_file-parts :
      {s s1 s2 : P.In} {n size : ℕ} {blocks last : Bytes}
      → src ≢ dest
      → P.open_in fs src ≡ ok s
      → P.open_out fs dest ≡ ok tt
      → P.get_length s ≡ n
      → 1 ≤ packets n
      → encrypt_blocks P rand (packets n - 1) 0 s 8126 key ≡ ok (blocks, s1)
      → (n - (packets n - 1) * 8126) % 2 ^ 32 ≡ size
      → encrypt_data_block P s1 (rand (packets n - 1)) size key ≡ ok (last, s2)
      → encrypt_file P rand fs src dest key ≡ ok (header_writes (packets n) ++ (blocks ++ last))
  unfolding encrypt_file
  encrypt_file-parts ne e1 e2 e3 h e4 e5 e6 =
      rw (str_eq_of_ne src dest ne)
        (rw e1 (rw e3 (rw (le→leb 1 _ h) (rw e2 (rw e4 (rw e5 (rw e6)))))))

module _ (P : Platform) (fs : P.Fs) (src dest : Str) (key : Bytes) where
  decrypt_file-parts :
      {t t1 t2 t3 t4 : P.In} {n cnt bl size : ℕ} {b1 b2 b3 blocks last : Bytes}
      → src ≢ dest
      → P.open_in fs src ≡ ok t
      → P.open_out fs dest ≡ ok tt
      → P.get_length t ≡ n
      → 20 < n
      → P.read (P.seekg t 8) 8 ≡ ok (b1, t1)
      → bytes_to_int 8 b1 ≡ ok cnt
      → 1 ≤ cnt
      → P.read t1 4 ≡ ok (b2, t2)
      → bytes_to_int 4 b2 ≡ ok bl
      → check_header n cnt bl ≡ ok tt
      → decrypt_blocks P (cnt - 1) t2 bl key ≡ ok (blocks, t3)
      → n - 20 - mul64 (cnt - 1) bl ≡ size
      → P.read t3 size ≡ ok (b3, t4)
      → decrypt_data_block P b3 key ≡ ok last
      → decrypt_file P fs src dest key ≡ ok (blocks ++ last)
  unfolding decrypt_file read_header read_blocks
  decrypt_file-parts ne e1 e2 e3 h e4 e5 one e6 e7 e8 e9 e10 e11 e12 =
      rw (str_eq_of_ne src dest ne) (
        rw e1 (
          rw e2 (
            rw e3 (
              rw (lt→ltb 20 _ h) (
                rw e4 (
                  rw e5 (
                    rw (le→leb 1 _ one)
                      (rw e6 (rw e7 (rw e8 (rw e9 (rw e10 (rw e11 (rw e12))))))))))))))

read-at_n :
    (P : Platform) (L : IsPlatform P) (m n : ℕ) (front rest : Bytes) (s : P.In)
    → length front ≡ n
    → L.At m (front ++ rest) s
    → (s' : P.In) × (P.read s n ≡ ok (front, s')) × L.At m rest s'
read-at_n P L m n front rest s e a = rw (← e) (L.read-at m front rest s a)

seekg-at_n :
    (P : Platform) (L : IsPlatform P) (n : ℕ) (w front rest : Bytes) (s : P.In)
    → w ≡ front ++ rest
    → length front ≡ n
    → L.At (length w) w s
    → L.At (length w) rest (P.seekg s n)
seekg-at_n P L n w front rest s e f a = rw (← f, e) (L.seekg-at front rest s (rw e at a))

module _ (P : Platform) (L : IsPlatform P) (key : Bytes) (k : IsKey key) (rand : ℕ → Bytes)
    (fresh : (i : ℕ) → length (rand i) ≡ 12) where
  -- Encryption of a file that is not empty, to another path and with a key of 16 or 32 bytes,
  -- succeeds. It writes the header and one sealed block for each 8126 bytes or part of them.
  pub encrypt_file-sealed_file :
      (fs : P.Fs) (src dest : Str) (c : Bytes) (s : P.In)
      → src ≢ dest
      → P.open_in fs src ≡ ok s
      → P.open_out fs dest ≡ ok tt
      → L.At (length c) c s
      → 0 < length c
      → encrypt_file P rand fs src dest key ≡ ok (sealed_file P key rand c)
  unfolding sealed_file
  encrypt_file-sealed_file fs src dest c s ne e1 e2 a h =
      let (one, below, above) = packets_bounds (length c) h in
      let n = packets (length c) - 1 in
      let (s1, e3, a1) =
        encrypt_blocks-at P L key k rand fresh n 0 c (length c) s (omega arith) a in
      let (s2, e4, a2) =
        encrypt_data_block-at P L (length c) (back n c) [] s1 key (rand n) k (rw append-nil a1) in
      encrypt_file-parts P rand fs src dest key ne e1 e2 (L.get_length-at _ _ s a) one e3
        (omega (arith, length-back n c)) e4

  length-sealed_file :
      (c : Bytes)
      → 0 < length c
      → length (sealed_file P key rand c) ≡ 20 + (packets (length c) * 66 + length c)
  unfolding sealed_file header_writes
  length-sealed_file c h =
      let (one, below, above) = packets_bounds (length c) h in
      let n = packets (length c) - 1 in
      simp length-append (
        omega (
          arith,
          length-int_to_bytes,
          length-sealed_blocks P L key k rand fresh n 0 c (omega arith),
          length-sealed_block P L key (rand n) (back n c) k (fresh n),
          length-back n c,
        ))

  pub decrypt_file-sealed_file :
      (fs : P.Fs) (src dest : Str) (c : Bytes) (t : P.In)
      → src ≢ dest
      → P.open_in fs src ≡ ok t
      → P.open_out fs dest ≡ ok tt
      → L.At (length (sealed_file P key rand c)) (sealed_file P key rand c) t
      → 0 < length c
      → length c < 2 ^ 62
      → decrypt_file P fs src dest key ≡ ok c
  unfolding sealed_file header_writes
  decrypt_file-sealed_file fs src dest c t ne e1 e2 a h small =
      let (one, below, above) = packets_bounds (length c) h in
      let cnt = packets (length c) in
      let n = cnt - 1 in
      let m = length (sealed_file P key rand c) in
      let size = length-sealed_file c h in
      let last = sealed_block P key (rand n) (back n c) in
      let blocks = sealed_blocks P key rand n 0 c in
      let mark = int_to_bytes 4 1 ++ int_to_bytes 4 1 in
      let rest = int_to_bytes 8 cnt ++ (int_to_bytes 4 8192 ++ (blocks ++ last)) in
      let mark8 : length mark ≡ 8 =
        omega (arith, length-append (int_to_bytes 4 1) (int_to_bytes 4 1), length-int_to_bytes) in
      let a0 =
        seekg-at_n P L 8 (sealed_file P key rand c) mark rest t (simp append_assoc) mark8 a in
      let (t1, e3, a1) =
        read-at_n P L m 8 (int_to_bytes 8 cnt) _ (P.seekg t 8) (length-int_to_bytes 8 cnt) a0 in
      let (t2, e4, a2) =
        read-at_n P L m 4 (int_to_bytes 4 8192) _ t1 (length-int_to_bytes 4 8192) a1 in
      let (t3, e5, a3) = decrypt_blocks-at P L key k rand fresh n 0 c last m t2 (omega arith) a2 in
      let (t4, e6, a4) = L.read-at m last [] t3 (rw append-nil a3) in
      let product : mul64 n 8192 ≡ n * 8192 = omega arith in
      let last_size : m - 20 - mul64 n 8192 ≡ length last = omega (
        arith,
        size,
        product,
        length-sealed_block P L key (rand n) (back n c) k (fresh n),
        length-back n c,
      ) in
      decrypt_file-parts P fs src dest key ne e1 e2 (L.get_length-at _ _ t a) (omega (arith, size))
        e3 (bytes_to_int-int_to_bytes 8 cnt (omega arith)) one e4
        (bytes_to_int-int_to_bytes 4 8192 (omega arith))
        ((check_header_iff m cnt 8192).1 (omega (arith, size))) e5 last_size e6
        (decrypt_data_block-sealed_block P L key (rand n) (back n c) k (fresh n))
      ∙ ap ok (front-append-back n c)

  -- An empty file is refused, before the output is opened.
  pub encrypt_file_empty :
      (fs : P.Fs) (src dest : Str) (s : P.In)
      → src ≢ dest
      → P.open_in fs src ≡ ok s
      → P.get_length s ≡ 0
      → encrypt_file P rand fs src dest key ≡ throw (error "Pack cnt less than 1" [])
  unfolding encrypt_file packets
  encrypt_file_empty fs src dest s ne e1 e2 = rw (str_eq_of_ne src dest ne) (rw e1 (rw e2))

  encrypted-nonempty :
      (fs : P.Fs) (src dest : Str) (c w : Bytes) (s : P.In)
      → src ≢ dest
      → P.open_in fs src ≡ ok s
      → L.At (length c) c s
      → encrypt_file P rand fs src dest key ≡ ok w
      → 0 < length c
  encrypted-nonempty fs src dest [] w s ne e1 a e =
      cc (encrypt_file_empty fs src dest s ne e1 (L.get_length-at 0 [] s a))
  encrypted-nonempty fs src dest (b ∷ c) w s ne e1 a e = omega arith

  -- Decryption of what encryption wrote, with the same key, gives the plaintext back: for every
  -- file below 2 ^ 62 bytes, key of 16 or 32 bytes, and random values of 12 bytes.
  pub decrypt_file-encrypt_file :
      (fs fs' : P.Fs) (src enc dest : Str) (c w : Bytes) (s t : P.In)
      → src ≢ enc
      → enc ≢ dest
      → P.open_in fs src ≡ ok s
      → P.open_out fs enc ≡ ok tt
      → L.At (length c) c s
      → encrypt_file P rand fs src enc key ≡ ok w
      → P.open_in fs' enc ≡ ok t
      → P.open_out fs' dest ≡ ok tt
      → L.At (length w) w t
      → length c < 2 ^ 62
      → decrypt_file P fs' enc dest key ≡ ok c
  decrypt_file-encrypt_file fs fs' src enc dest c w s t ne ne' e1 e2 a e e3 e4 a' small =
      let h = encrypted-nonempty fs src enc c w s ne e1 a e in
      let same : w ≡ sealed_file P key rand c =
        cc (encrypt_file-sealed_file fs src enc c s ne e1 e2 a h) in
      decrypt_file-sealed_file fs' enc dest c t ne' e3 e4 (rw same at a') h small
