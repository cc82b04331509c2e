-- ===== src/CryptoUtil/Directory/RoundTrip.antt =====
-- `DecryptToDir` after `EncryptToDir`, on directories: the files come back as they were, also from a copy of the directory.
use mathlib.Core.List.{Memᴰ}
use trustflow.Base.{ℕ, ◌<◌, ◌^◌, ◌≡◌, ◌≢◌, refl, sym, ◌∙◌, some, List, [], ◌∷◌, Bytes, Str, length}
use trustflow.Error.{Result, ok}
use trustflow.CryptoUtil.Platform.{Platform, IsPlatform}
use trustflow.CryptoUtil.Disk.{Disk, IsDisk}
use trustflow.CryptoUtil.Tasks.{Task, Step, join_all}
use trustflow.CryptoUtil.Block.Laws.{IsKey}
use trustflow.CryptoUtil.File.{encrypt_file, decrypt_file}
use trustflow.CryptoUtil.File.Laws.{sealed_file}
use trustflow.CryptoUtil.File.RoundTrip.{encrypt_file-sealed_file, decrypt_file-sealed_file}
use trustflow.CryptoUtil.Directory.{
  encrypt_item, decrypt_item, encrypt_loop, decrypt_loop, encrypt_directory, decrypt_directory,
}
use trustflow.CryptoUtil.Directory.Order.{in_order}
use trustflow.CryptoUtil.Directory.Safe.{IsSafe}
use trustflow.CryptoUtil.Directory.Unordered.{IsFinished, run_loop-IsFinished}
use trustflow.CryptoUtil.Directory.Decrypted.{encrypt_file-IsLocal, decrypted_loop}

pub all_succeed :
    {S : Type 0} (f : S → Str → Str → Result Bytes) (s : S) (ts : List Task)
    → ((t : Task) → Memᴰ t ts → (w : Bytes) × (f s t.source t.dest ≡ ok w))
    → in_order f s ts ≡ ok tt
all_succeed f s [] h = refl
all_succeed f s (t ∷ ts) h =
    rw ((h t (Memᴰ.head refl)).1) (all_succeed f s ts λ u m. h u (Memᴰ.tail m))

module _ (P : Platform) (Q : IsPlatform P) (D : Disk P) (L : IsDisk P D) (key : Bytes)
    (k : IsKey key) (rand : Str → ℕ → Bytes)
    (fresh : (path : Str) (i : ℕ) → length (rand path i) ≡ 12)
    (opens : (path : Str) (c : Bytes) (s : P.Fs)
      → L.content s path ≡ some c
      → (input : P.In) × (P.open_in s path ≡ ok input) × Q.At (length c) c input) where
  -- A pair whose source can be encrypted: it is there, it is not empty and below 2 ^ 62 bytes.
  abbrev pub IsReady : P.Fs → Str × Str → Type 0
  IsReady s p = (c : Bytes) × (L.content s p.0 ≡ some c) × (0 < length c) × (length c < 2 ^ 62)

  sealed_task :
      (s : P.Fs) (t : Task) (c : Bytes)
      → t.dest ≢ t.source
      → L.content s t.source ≡ some c
      → 0 < length c
      → P.open_out s t.dest ≡ ok tt
      → encrypt_file P (rand t.dest) s t.source t.dest key ≡ ok (sealed_file P key (rand t.dest) c)
  sealed_task s t c ne e pos o =
      let (input, i, at) = opens t.source c s e in
      encrypt_file-sealed_file P Q key k (rand t.dest) (fresh t.dest) s t.source t.dest c input
        (λ q. ne (sym q)) i o at pos

  -- What was encrypted is decrypted.
  pub opened_task :
      (s2 : P.Fs) (path : Str) (b : Task) (c : Bytes)
      → b.dest ≢ b.source
      → 0 < length c
      → length c < 2 ^ 62
      → P.open_out s2 b.dest ≡ ok tt
      → L.content s2 b.source ≡ some (sealed_file P key (rand path) c)
      → decrypt_file P s2 b.source b.dest key ≡ ok c
  opened_task s2 path b c ne pos small o there =
      let (input, i, at) = opens b.source (sealed_file P key (rand path) c) s2 there in
      decrypt_file-sealed_file P Q key k (rand path) (fresh path) s2 b.source b.dest c input
        (λ q. ne (sym q)) i o at pos small

  module _ (schedule : List Step) (src enc : Str) (s : P.Fs) (pairs : List (Str × Str))
      (safe : IsSafe P D L (encrypt_item P D src enc) (D.visits s src) pairs)
      (good : (encrypt_loop P D schedule rand src enc key s).ended ≡ ok tt)
      (ready : (p : Str × Str) → Memᴰ p pairs → IsReady s p) where
    -- The threads that were launched.
    abbrev pub launched : List Task
    launched = (encrypt_loop P D schedule rand src enc key s).launched

    finished :
        IsFinished P D L
          (λ s src dest. encrypt_file P (rand dest) s src dest key)
          (encrypt_file-IsLocal P D L rand key)
          (encrypt_item P D src enc)
          (D.visits s src)
          pairs
          safe
          s
          (encrypt_loop P D schedule rand src enc key s)
    unfolding encrypt_loop
    finished =
        run_loop-IsFinished P D L (λ s src dest. encrypt_file P (rand dest) s src dest key)
          (encrypt_file-IsLocal P D L rand key) (encrypt_item P D src enc) (D.visits s src) pairs
          safe s schedule

    ready_task : (t : Task) → Memᴰ t launched → IsReady s (t.source, t.dest)
    ready_task t m = ready (t.source, t.dest) (finished.1 t m).0

    done :
        (t : Task) (c : Bytes)
        → Memᴰ t launched
        → L.content s t.source ≡ some c
        → encrypt_file P
            (rand t.dest)
            (encrypt_loop P D schedule rand src enc key s).state
            t.source
            t.dest
            key
          ≡ ok (sealed_file P key (rand t.dest) c)
    done t c m e =
        let (pair, there, o) = finished.1 t m in
        let (c', e', pos, small) = ready_task t m in
        let same : c' ≡ c = cc in
        sealed_task (encrypt_loop P D schedule rand src enc key s).state t c
          (safe.independent (t.source, t.dest) (t.source, t.dest) pair pair).0 (there ∙ e)
          (rw same at pos) o

    -- What the first call leaves: every task has written its encrypted file.
    pub all_sealed :
        ((encrypt_directory P D schedule rand src enc key s).0 ≡ ok tt)
        × ((t : Task) (c : Bytes)
            → Memᴰ t launched
            → L.content s t.source ≡ some c
            → L.content (encrypt_directory P D schedule rand src enc key s).1 t.dest
              ≡ some (sealed_file P key (rand t.dest) c))
    unfolding encrypt_directory join_all
    all_sealed =
        let l = encrypt_loop P D schedule rand src enc key s in
        let (result, tasks, files, rest) = finished in
        (
          result good
              ∙ all_succeed (λ s src dest. encrypt_file P (rand dest) s src dest key) l.state
                  launched
                  λ t m.
                    (let (c, e, pos, small) = ready_task t m in
                      (sealed_file P key (rand t.dest) c, done t c m e)),
          λ t c m e. files t (sealed_file P key (rand t.dest) c) m (done t c m e),
        )

    -- A source of the second loop that is a copy of what the first one wrote.
    abbrev pub IsCopy : P.Fs → Str → Type 0
    IsCopy t path =
        (a : Task) × Memᴰ a launched
        × (L.content t path
            ≡ L.content (encrypt_directory P D schedule rand src enc key s).1 a.dest)

    module _ (schedule' : List Step) (enc' out : Str) (t : P.Fs) (pairs' : List (Str × Str))
        (safe' : IsSafe P D L (decrypt_item P D enc' out) (D.visits t enc') pairs') where
      opened_copy :
          (a b : Task) (c : Bytes)
          → Memᴰ a launched
          → Memᴰ b (decrypt_loop P D schedule' enc' out key t).launched
          → L.content t b.source
            ≡ L.content (encrypt_directory P D schedule rand src enc key s).1 a.dest
          → L.content s a.source ≡ some c
          → decrypt_file P (decrypt_loop P D schedule' enc' out key t).state b.source b.dest key
            ≡ ok c
      opened_copy a b c m n copy e =
          let (result, tasks, files, rest) =
            decrypted_loop P D L schedule' enc' out key t pairs' safe' in
          let (pair, there, o) = tasks b n in
          let (c', e', pos, small) = ready_task a m in
          let same : c' ≡ c = cc in
          opened_task (decrypt_loop P D schedule' enc' out key t).state a.dest b c
            (safe'.independent (b.source, b.dest) (b.source, b.dest) pair pair).0 (rw same at pos)
            (rw same at small) o (there ∙ copy ∙ all_sealed.1 a c m e)

      -- The files of a directory are encrypted and later decrypted with the same key of 16 or 32 bytes and with
      -- random values of 12 bytes, whenever the threads of the two calls end, where a file that is there can be
      -- opened. The loop over the directory launches threads for files that are not empty and below 2 ^ 62 bytes,
      -- the second loop for copies of files that the first call wrote; neither loop throws, and in both calls loop
      -- and threads keep out of each other's way. Then both calls succeed, and a file that one thread encrypted is
      -- where another one decrypted its copy.
      pub decrypt_directory-restores :
          (a b : Task) (c : Bytes)
          → (decrypt_loop P D schedule' enc' out key t).ended ≡ ok tt
          → ((p : Str × Str) → Memᴰ p pairs' → IsCopy t p.0)
          → Memᴰ a launched
          → Memᴰ b (decrypt_loop P D schedule' enc' out key t).launched
          → L.content t b.source
            ≡ L.content (encrypt_directory P D schedule rand src enc key s).1 a.dest
          → L.content s a.source ≡ some c
          → ((encrypt_directory P D schedule rand src enc key s).0 ≡ ok tt)
            × ((decrypt_directory P D schedule' enc' out key t).0 ≡ ok tt)
            × (L.content (decrypt_directory P D schedule' enc' out key t).1 b.dest ≡ some c)
      unfolding decrypt_directory join_all
      decrypt_directory-restores a b c good' copies m n copy e =
          let l = decrypt_loop P D schedule' enc' out key t in
          let (result, tasks, files, rest) =
            decrypted_loop P D L schedule' enc' out key t pairs' safe' in
          (
            all_sealed.0,
            result good'
                ∙ all_succeed (λ s src dest. decrypt_file P s src dest key) l.state l.launched
                    λ u v.
                      (let (o, k', joined) = copies (u.source, u.dest) (tasks u v).0 in
                        let (c', e', pos, small) = ready_task o k' in
                        (c', opened_copy o u c' k' v joined e')),
            files b c n (opened_copy a b c m n copy e),
          )
