-- ===== src/CryptoUtil/Directory/Tests.antt =====
-- A directory with one file is encrypted and decrypted.
use trustflow.Base.{◌≡◌, refl, inl, some, [], ◌∷◌, codes, str_eq}
use trustflow.Error.{ok}
use trustflow.CryptoUtil.Sample.{
  open_path, shelf, shelf_disk, shelf_disk-IsDisk, platform_of-IsPlatform, opens_path, key, content,
}
use trustflow.CryptoUtil.Directory.{encrypt_directory, decrypt_loop, decrypt_directory}
use trustflow.CryptoUtil.Directory.Decrypted.{IsDecrypted, decrypt_directory_unordered}
use trustflow.CryptoUtil.Directory.RoundTrip.{decrypt_directory-restores}
use trustflow.CryptoUtil.Directory.Sample.{
  plain, sealed, rand, schedule, to_enc, to_out, enc-IsSafe, out-IsSafe, enc_good, out_good,
  enc_launched, out_launched, copied, plain-IsReady, sealed-IsCopy,
}

decrypt_directory-restores_example :
    ((encrypt_directory shelf shelf_disk schedule rand (codes "in") (codes "enc") key plain).0
      ≡ ok tt)
    × ((decrypt_directory shelf shelf_disk schedule (codes "enc") (codes "out") key sealed).0
        ≡ ok tt)
    × (shelf_disk-IsDisk.content
          (decrypt_directory shelf shelf_disk schedule (codes "enc") (codes "out") key sealed).1
          (codes "out/a")
        ≡ some content)
unfolding str_eq
decrypt_directory-restores_example =
    decrypt_directory-restores shelf (platform_of-IsPlatform open_path) shelf_disk shelf_disk-IsDisk
      key (inl refl) rand (λ path i. refl) opens_path schedule (codes "in") (codes "enc") plain
      ((codes "in/a", codes "enc/a.enc") ∷ []) enc-IsSafe enc_good plain-IsReady schedule
      (codes "enc") (codes "out") sealed ((codes "enc/a.enc", codes "out/a") ∷ []) out-IsSafe to_enc
      to_out content out_good sealed-IsCopy enc_launched out_launched copied refl

decrypt_directory_unordered_example :
    IsDecrypted shelf shelf_disk shelf_disk-IsDisk
      (codes "enc")
      (codes "out")
      (codes "enc/a.enc" ∷ [])
      ((codes "enc/a.enc", codes "out/a") ∷ [])
      key
      sealed
      (decrypt_loop shelf shelf_disk schedule (codes "enc") (codes "out") key sealed).launched
      (decrypt_directory shelf shelf_disk schedule (codes "enc") (codes "out") key sealed)
decrypt_directory_unordered_example =
    decrypt_directory_unordered shelf shelf_disk shelf_disk-IsDisk schedule (codes "enc")
      (codes "out") key sealed ((codes "enc/a.enc", codes "out/a") ∷ []) out-IsSafe out_good
