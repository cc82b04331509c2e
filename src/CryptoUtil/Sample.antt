-- ===== src/CryptoUtil/Sample.antt =====
-- Platforms in memory: one with a single file, and one with a file for each path.
use trustflow.Base.{
  arith, ◌∙◌, sym, ℕ, ◌+◌, ◌-◌, ◌==◌, ◌&&◌, ◌||◌, Bool, true, false, not, Option, some, none,
  is_empty, codes, ◌≡◌, refl, ap, List, [], ◌∷◌, ◌++◌, Bytes, Str, str_eq, length, take, drop,
  replicate, take-append, drop-append, if◌then◌else◌,
}
use trustflow.Error.{Result, ok, throw, error}
use trustflow.CryptoUtil.Disk.{Disk, IsDisk}
use trustflow.CryptoUtil.Platform.{Platform, IsPlatform, IsGcm}

-- A stream is the length of its file and what is still to be read.
abbrev pub Stream : Type 0
Stream = ℕ × Bytes

abbrev pub mask_encrypt : Bytes → Bytes → Bytes → Bytes → Bytes × Bytes
mask_encrypt key iv text aad = (text, replicate 16 0)

abbrev pub mask_decrypt : Bytes → Bytes → Bytes → Bytes → Bytes → Result Bytes
mask_decrypt key iv text aad mac = ok text

abbrev pub platform_of : {Files : Type 0} → (Files → Str → Result Stream) → Platform
platform_of {Files} open_file = record {
  Fs = Files;
  In = Stream;
  open_in = open_file;
  open_out = λ fs path. ok tt;
  get_length = λ s. s.0;
  seekg = λ s n. (s.0, drop n s.1);
  read = λ s n. ok (take n s.1, (s.0, drop n s.1));
  subspan = λ b i n. ok (take n (drop i b));
  subspan_from = λ b i. ok (drop i b);
  aes128_encrypt = mask_encrypt;
  aes128_decrypt = mask_decrypt;
  aes256_encrypt = mask_encrypt;
  aes256_decrypt = mask_decrypt;
}

pub mask-IsGcm : (n : ℕ) → IsGcm n mask_encrypt mask_decrypt
mask-IsGcm n = record {
  length-cipher = λ key iv text aad h. refl;
  length-mac = λ key iv text aad h. refl;
  decrypt-encrypt = λ key iv text aad h. refl;
}

abbrev pub platform_of-IsPlatform :
    {Files : Type 0} (open_file : Files → Str → Result Stream) → IsPlatform (platform_of open_file)
platform_of-IsPlatform open_file = record {
  At = λ n rest s. s ≡ (n, rest);
  get_length-at = λ n rest s e. ap (λ (t : Stream). t.0) e;
  read-at = λ n front rest s e.
      ((n, rest), rw e (rw (take-append front rest) (rw (drop-append front rest))), refl);
  seekg-at = λ front rest s e. rw e (rw (drop-append front rest));
  subspan_inside =
      λ front mid back. rw (drop-append front (mid ++ back)) (rw (take-append mid back));
  subspan_from_inside = λ front back. rw (drop-append front back);
  aes128 = mask-IsGcm 16;
  aes256 = mask-IsGcm 32;
}

-- Every path names the same file.
abbrev pub memory : Platform
memory = platform_of {Files = Bytes} λ fs path. ok (length fs, fs)

abbrev pub memory-IsPlatform : IsPlatform memory
memory-IsPlatform = platform_of-IsPlatform {Files = Bytes} λ fs path. ok (length fs, fs)

abbrev pub Files : Type 0
Files = List (Str × Bytes)

-- The last write to a path counts.
abbrev pub open_path : Files → Str → Result Stream
open_path [] path = throw (error "no such file" [])
open_path ((p, b) ∷ files) path =
    let rest = open_path files path in if str_eq p path then ok (length b, b) else rest

abbrev pub shelf : Platform
shelf = platform_of open_path

-- Paths of the disk: names with `/` between them. A directory is there if a file is under it.
abbrev pub starts_with : Str → Str → Bool
starts_with p [] = true
starts_with [] (b ∷ bs) = false
starts_with (a ∷ p) (b ∷ bs) = (a == b) && starts_with p bs

abbrev pub under : Str → Files → List Str
under base [] = []
under base ((p, b) ∷ files) =
    let rest = under base files in if starts_with p base then p ∷ rest else rest

abbrev pub without : Str → Files → Files
without base [] = []
without base ((p, b) ∷ files) =
    let rest = without base files in if starts_with p base then rest else (p, b) ∷ rest

abbrev pub has_file : Files → Str → Bool
has_file [] path = false
has_file ((p, b) ∷ files) path = str_eq p path || has_file files path

abbrev pub content_of : Files → Str → Option Bytes
content_of [] path = none
content_of ((p, b) ∷ files) path =
    let rest = content_of files path in if str_eq p path then some b else rest

abbrev pub copy_file : Option Bytes → Str → Files → Result (Unit {0}) × Files
copy_file none to files = (throw (error "no such file" []), files)
copy_file (some b) to files = (ok tt, (to, b) ∷ files)

abbrev pub shelf_disk : Disk shelf
shelf_disk = record {
  exists = λ s p. not (is_empty (under p s));
  is_regular_file = has_file;
  is_directory = λ s p. not (is_empty (under p s));
  visits = λ s p. under p s;
  create_directories = λ p s. (ok tt, s);
  copy = λ p to s. copy_file (content_of s p) to s;
  remove_all = λ p s. (ok tt, without p s);
  relative = λ s p base. drop (length base + 1) p;
  join = λ p q. p ++ (codes "/" ++ q);
  filename = λ p. p;
  parent_path = λ p. [];
  extension = λ p. drop (length p - 4) p;
  remove_extension = λ p. take (length p - 4) p;
  write = λ p b s. (p, b) ∷ s;
  abandon = λ p s. s;
}

-- A file and what it is encrypted to.
abbrev pub key : Bytes
key = replicate 16 7

abbrev pub content : Bytes
content = 1 ∷ 2 ∷ 3 ∷ []

abbrev pub header : Bytes
header = 1 ∷ 0 ∷ 0 ∷ 0 ∷ 1 ∷ 0 ∷ 0 ∷ 0 ∷ 1 ∷ 0 ∷ 0 ∷ 0 ∷ 0 ∷ 0 ∷ 0 ∷ 0 ∷ 0 ∷ 32 ∷ 0 ∷ 0 ∷ []

abbrev pub written : Bytes
written =
    header ++ ((12 ∷ replicate 12 0) ++ (replicate 20 0 ++ ((16 ∷ replicate 32 0) ++ content)))

abbrev pub stream_of : Option Bytes → Result Stream
stream_of none = throw (error "no such file" [])
stream_of (some b) = ok (length b, b)

opened : (s : Files) (p : Str) → open_path s p ≡ stream_of (content_of s p)
opened [] p = refl
opened ((q, b) ∷ s) p = ground (arith, opened s p)

pub open_path-content :
    (s : Files) (p : Str) (t : Files)
    → content_of s p ≡ content_of t p
    → open_path s p ≡ open_path t p
open_path-content s p t e = opened s p ∙ ap stream_of e ∙ sym (opened t p)

pub opens_path :
    (p : Str) (c : Bytes) (s : Files)
    → content_of s p ≡ some c
    → (input : Stream) × (open_path s p ≡ ok input) × (input ≡ (length c, c))
opens_path p c s e = ((length c, c), opened s p ∙ ap stream_of e, refl)

abbrev pub shelf_disk-IsDisk : IsDisk shelf shelf_disk
shelf_disk-IsDisk = record {
  content = content_of;
  content-write = λ p q b s. refl;
  content-abandon = λ p q s ne. refl;
  open_in-content = λ p s t e. open_path-content s p t e;
  open_out-write = λ p q b s. refl;
  open_out-abandon = λ p q s. refl;
}
