-- ===== src/CryptoUtil/Directory.antt =====
-- `EncryptToDir` and `DecryptToDir` of crypto_util.cc.
pub mod Order
pub mod Safe
pub mod Unordered
pub mod RoundTrip
pub mod Decrypted
pub mod Sample
mod Tests
use trustflow.Base.{ℕ, Option, none, some, List, [], ◌∷◌, ◌++◌, Bytes, Str, str_eq, if◌then◌else◌}
use trustflow.Error.{Result, ok, throw, undefined, text}
use trustflow.Action.{Action, pure, enforce, yacl_throw, ◌>>◌}
use trustflow.CryptoUtil.Platform.{Platform}
use trustflow.CryptoUtil.Disk.{Disk, enc_suffix}
use trustflow.CryptoUtil.File.{encrypt_file, decrypt_file}
use trustflow.CryptoUtil.Tasks.{Step, Loop, run_loop, join_all}

module _ (P : Platform) (D : Disk P) where
  -- A call that writes the bytes to its destination, or throws on the way.
  unfoldable pub written_to : Str → Result Bytes → Action P.Fs (Unit {0})
  written_to dest (ok w) s = (ok tt, D.write dest w s)
  written_to dest (throw x) s = (throw x, D.abandon dest s)
  written_to dest undefined s = (undefined, s)

  -- `EncryptFile` and `DecryptFile` on the disk. `rand dest i` is random, for block `i` of `dest`.
  abbrev pub encrypt_task : (Str → ℕ → Bytes) → Bytes → Str → Str → Action P.Fs (Unit {0})
  encrypt_task rand data_key source dest s =
      written_to dest (encrypt_file P (rand dest) s source dest data_key) s

  abbrev pub decrypt_task : Bytes → Str → Str → Action P.Fs (Unit {0})
  decrypt_task data_key source dest s = written_to dest (decrypt_file P s source dest data_key) s

  unfoldable pub make_parent : Str → Action P.Fs (Unit {0})
  make_parent path s =
      if D.exists s (D.parent_path path)
      then (ok tt, s)
      else D.create_directories (D.parent_path path) s

  -- One round of a loop over a directory: the arguments of the task that is launched, if one is.
  unfoldable pub encrypt_item : Str → Str → Str → Action P.Fs (Option (Str × Str))
  encrypt_item src_path dest_path item s =
      let dest_object_path = D.join dest_path (D.relative s item src_path) ++ enc_suffix in
      let launched = (do make_parent dest_object_path; pure (some (item, dest_object_path))) in
      if D.is_regular_file s item then launched s else (ok none, s)

  unfoldable pub decrypt_item : Str → Str → Str → Action P.Fs (Option (Str × Str))
  decrypt_item src_path dest_path item s =
      let dest_object_path = D.join dest_path (D.relative s item src_path) in
      let launched = (do
        make_parent dest_object_path
        pure (some (item, D.remove_extension dest_object_path))) in
      let copied = (do make_parent dest_object_path; D.copy item dest_object_path; pure none) in
      if D.is_regular_file s item
      then (if str_eq (D.extension item) enc_suffix then launched s else copied s)
      else (ok none, s)

  -- A single file.
  unfoldable pub encrypt_single : (Str → ℕ → Bytes) → Str → Str → Bytes → Action P.Fs (Unit {0})
  encrypt_single rand src_path dest_path data_key =
      let dest_object_path = D.join dest_path (D.filename src_path) ++ enc_suffix in
      make_parent dest_object_path >> encrypt_task rand data_key src_path dest_object_path

  unfoldable pub decrypt_single : Str → Str → Bytes → Action P.Fs (Unit {0})
  decrypt_single src_path dest_path data_key =
      let dest_object_path = D.join dest_path (D.filename src_path) in
      let content =
        if str_eq (D.extension src_path) enc_suffix
        then decrypt_task data_key src_path (D.remove_extension dest_object_path)
        else D.copy src_path dest_object_path in
      make_parent dest_object_path >> content

  -- The loops over a directory, whose threads end as the schedule says.
  unfoldable pub encrypt_loop : List Step → (Str → ℕ → Bytes) → Str → Str → Bytes → P.Fs → Loop P.Fs
  encrypt_loop schedule rand src_path dest_path data_key s =
      run_loop (encrypt_task rand data_key) (encrypt_item src_path dest_path) schedule
        (D.visits s src_path) s

  unfoldable pub decrypt_loop : List Step → Str → Str → Bytes → P.Fs → Loop P.Fs
  decrypt_loop schedule src_path dest_path data_key s =
      run_loop (decrypt_task data_key) (decrypt_item src_path dest_path) schedule
        (D.visits s src_path) s

  module _ (schedule : List Step) where
    unfoldable pub encrypt_directory :
        (Str → ℕ → Bytes) → Str → Str → Bytes → Action P.Fs (Unit {0})
    encrypt_directory rand src_path dest_path data_key s =
        join_all (encrypt_loop schedule rand src_path dest_path data_key s)

    unfoldable pub decrypt_directory : Str → Str → Bytes → Action P.Fs (Unit {0})
    decrypt_directory src_path dest_path data_key s =
        join_all (decrypt_loop schedule src_path dest_path data_key s)

    -- The three kinds of source.
    unfoldable pub by_kind :
        Str → Action P.Fs (Unit {0}) → Action P.Fs (Unit {0}) → Action P.Fs (Unit {0})
    by_kind src_path single directory s =
        if D.is_regular_file s src_path
        then single s
        else if D.is_directory s src_path
        then directory s
        else yacl_throw "src_path {} is not a file or directory" (text src_path ∷ []) s

    unfoldable pub encrypt_to_dir : (Str → ℕ → Bytes) → Str → Str → Bytes → Action P.Fs (Unit {0})
    encrypt_to_dir rand src_path dest_path data_key s =
        (enforce (D.exists s src_path) "src_path {} not exists" (text src_path ∷ [])
            >> by_kind src_path (encrypt_single rand src_path dest_path data_key)
                (encrypt_directory rand src_path dest_path data_key))
          s

    unfoldable pub decrypt_to_dir : Str → Str → Bytes → Action P.Fs (Unit {0})
    decrypt_to_dir src_path dest_path data_key s =
        (enforce (D.exists s src_path) "src_path {} not exists" (text src_path ∷ [])
            >> by_kind src_path (decrypt_single src_path dest_path data_key)
                (decrypt_directory src_path dest_path data_key))
          s
