-- ===== src/CryptoUtil/Disk.antt =====
-- What the proxy takes from std::filesystem, and what a file stream leaves behind.
use trustflow.Base.{◌≡◌, Bool, false, Option, some, List, Bytes, Str, str_eq, codes, if◌then◌else◌}
use trustflow.Action.{Action}
use trustflow.CryptoUtil.Platform.{Platform}

pub record Disk (P : Platform) : Type 0 where
  pub exists : P.Fs → Str → Bool
  pub is_regular_file : P.Fs → Str → Bool
  pub is_directory : P.Fs → Str → Bool
  -- What a `recursive_directory_iterator` visits, in its order.
  pub visits : P.Fs → Str → List Str
  pub create_directories : Str → Action P.Fs (Unit {0})
  -- With `overwrite_existing`.
  pub copy : Str → Str → Action P.Fs (Unit {0})
  pub remove_all : Str → Action P.Fs (Unit {0})
  -- Operations on paths: `relative(p, base)`, `operator/`, and the parts of a path.
  pub relative : P.Fs → Str → Str → Str
  pub join : Str → Str → Str
  pub filename : Str → Str
  pub parent_path : Str → Str
  pub extension : Str → Str
  pub remove_extension : Str → Str
  -- An output stream on a path that is closed after it was given the bytes, and one that an
  -- exception leaves.
  pub write : Str → Bytes → P.Fs → P.Fs
  pub abandon : Str → P.Fs → P.Fs

-- `kEncSuffix`
abbrev pub enc_suffix : Str
enc_suffix = codes ".enc"

-- The documented behaviour of files: a write changes the file of its path, and no other.
pub record IsDisk (P : Platform) (D : Disk P) : Type 0 where
  pub content : P.Fs → Str → Option Bytes
  pub content-write :
      (p q : Str) (b : Bytes) (s : P.Fs)
      → content (D.write p b s) q ≡ (if str_eq p q then some b else content s q)
  pub content-abandon :
      (p q : Str) (s : P.Fs) → str_eq p q ≡ false → content (D.abandon p s) q ≡ content s q
  -- An input stream is over the content, whatever the other files are.
  pub open_in-content :
      (p : Str) (s t : P.Fs) → content s p ≡ content t p → P.open_in s p ≡ P.open_in t p
  -- A file that is written does not change which files can be written.
  pub open_out-write :
      (p q : Str) (b : Bytes) (s : P.Fs) → P.open_out (D.write p b s) q ≡ P.open_out s q
  pub open_out-abandon : (p q : Str) (s : P.Fs) → P.open_out (D.abandon p s) q ≡ P.open_out s q
