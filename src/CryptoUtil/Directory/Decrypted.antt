-- ===== src/CryptoUtil/Directory/Decrypted.antt =====
-- What `DecryptToDir` comes to on a directory, whichever order its threads end in.
use mathlib.Core.List.{Memᴰ}
use trustflow.Base.{ℕ, ◌≡◌, ◌≢◌, some, List, Bytes, Str}
use trustflow.Error.{Result, ok}
use trustflow.CryptoUtil.Platform.{Platform}
use trustflow.CryptoUtil.Disk.{Disk, IsDisk}
use trustflow.CryptoUtil.Tasks.{Task, Step, join_all}
use trustflow.CryptoUtil.File.{encrypt_file, decrypt_file}
use trustflow.CryptoUtil.Directory.{decrypt_item, decrypt_loop, decrypt_directory}
use trustflow.CryptoUtil.Directory.Order.{in_order}
use trustflow.CryptoUtil.Directory.Safe.{IsLocal, IsSafe}
use trustflow.CryptoUtil.Directory.Unordered.{IsFinished, run_loop-IsFinished}

module _ (P : Platform) (D : Disk P) (L : IsDisk P D) where
  pub decrypt_file-IsLocal :
      (key : Bytes) → IsLocal P D L λ s src dest. decrypt_file P s src dest key
  unfolding decrypt_file
  decrypt_file-IsLocal key s t src dest e o = rw (L.open_in-content src s t e, o)

  pub encrypt_file-IsLocal :
      (rand : Str → ℕ → Bytes) (key : Bytes)
      → IsLocal P D L λ s src dest. encrypt_file P (rand dest) s src dest key
  unfolding encrypt_file
  encrypt_file-IsLocal rand key s t src dest e o = rw (L.open_in-content src s t e, o)

  -- What the tasks of a loop came to, and the rest of the files.
  abbrev pub IsDecrypted :
      Str
      → Str
      → List Str
      → List (Str × Str)
      → Bytes
      → P.Fs
      → List Task
      → Result (Unit {0}) × P.Fs
      → Type 0
  IsDecrypted src_path dest_path items pairs key s tasks (r, s') =
      (r ≡ in_order (λ s src dest. decrypt_file P s src dest key) s' tasks)
      × ((u : Task) (w : Bytes)
          → Memᴰ u tasks
          → decrypt_file P s' u.source u.dest key ≡ ok w
          → L.content s' u.dest ≡ some w)
      × ((q : Str)
          → ((item : Str) (t : P.Fs)
              → Memᴰ item items
              → L.content (decrypt_item P D src_path dest_path item t).1 q ≡ L.content t q)
          → ((p : Str × Str) → Memᴰ p pairs → p.1 ≢ q)
          → L.content s' q ≡ L.content s q)

  pub decrypted_loop :
      (schedule : List Step) (src_path dest_path : Str) (key : Bytes) (s : P.Fs)
      (pairs : List (Str × Str))
      (safe : IsSafe P D L (decrypt_item P D src_path dest_path) (D.visits s src_path) pairs)
      → IsFinished P D L
          (λ s src dest. decrypt_file P s src dest key)
          (decrypt_file-IsLocal key)
          (decrypt_item P D src_path dest_path)
          (D.visits s src_path)
          pairs
          safe
          s
          (decrypt_loop P D schedule src_path dest_path key s)
  unfolding decrypt_loop
  decrypted_loop schedule src_path dest_path key s pairs safe =
      run_loop-IsFinished P D L (λ s src dest. decrypt_file P s src dest key)
        (decrypt_file-IsLocal key) (decrypt_item P D src_path dest_path) (D.visits s src_path) pairs
        safe s schedule

  -- What decrypting a directory comes to, if its loop does not throw, and loop and threads keep out of each
  -- other's way: wherever between the rounds of the loop, or after it, and in whichever order the threads end, the
  -- first exception in the order of the vector is thrown, if there is one; each task that succeeds has left its
  -- plaintext; and a file that neither the loop nor a thread writes is as it was.
  pub decrypt_directory_unordered :
      (schedule : List Step) (src_path dest_path : Str) (key : Bytes) (s : P.Fs)
      (pairs : List (Str × Str))
      → IsSafe P D L (decrypt_item P D src_path dest_path) (D.visits s src_path) pairs
      → (decrypt_loop P D schedule src_path dest_path key s).ended ≡ ok tt
      → IsDecrypted src_path dest_path
          (D.visits s src_path)
          pairs
          key
          s
          (decrypt_loop P D schedule src_path dest_path key s).launched
          (decrypt_directory P D schedule src_path dest_path key s)
  unfolding decrypt_directory join_all
  decrypt_directory_unordered schedule src_path dest_path key s pairs safe good =
      let (result, tasks, files, rest) =
        decrypted_loop schedule src_path dest_path key s pairs safe in
      (result good, files, λ q loop threads. rest q (loop, threads))
