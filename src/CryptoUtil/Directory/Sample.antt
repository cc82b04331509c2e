-- ===== src/CryptoUtil/Directory/Sample.antt =====
-- A directory with one file, encrypted and decrypted.
use mathlib.Core.List.{Memᴰ}
use mathlib.Core.Path.{subst}
use trustflow.Base.{
  ℕ, ◌≡◌, ◌≢◌, ◌⊎◌, inr, Bool-cases, Option, some, none, List, refl, sym, ap, ◌∙◌, inl, arith, [],
  ◌∷◌, Bytes, Str, codes, str_eq, str_eq_iff, replicate, true,
}
use trustflow.Error.{ok}
use trustflow.CryptoUtil.Sample.{
  Files, open_path, shelf, shelf_disk, shelf_disk-IsDisk, platform_of-IsPlatform, opens_path, key,
  content, written,
}
use trustflow.CryptoUtil.Word.{bytes_to_int, int_to_bytes, join_bytes}
use trustflow.CryptoUtil.Block.{
  encrypt_data_block, decrypt_data_block, decrypt_with_key, encrypt_with_key, block_writes,
}
use trustflow.CryptoUtil.File.{
  encrypt_file, decrypt_file, check_header, packets, header_writes, encrypt_blocks, decrypt_blocks,
  read_header, read_blocks,
}
use trustflow.CryptoUtil.Tasks.{
  Task, Step, round, thread, Loop, start, emplace, after_round, task_at, has_ended, end_thread,
  one_round, end_at, step, steps, rounds, wait, run_loop, get, get_all, join_all,
}
use trustflow.CryptoUtil.Platform.{Platform}
use trustflow.CryptoUtil.Disk.{Disk, IsDisk}
use trustflow.Action.{Action}
use trustflow.CryptoUtil.Directory.{
  written_to, make_parent, encrypt_item, decrypt_item, encrypt_loop, decrypt_loop,
  encrypt_directory,
}
use trustflow.CryptoUtil.Directory.Safe.{IsSafe}
use trustflow.CryptoUtil.Directory.RoundTrip.{IsReady, IsCopy}

abbrev pub plain : Files
plain = (codes "in/a", content) ∷ []

abbrev pub sealed : Files
sealed = (codes "enc/a.enc", written) ∷ plain

abbrev pub restored : Files
restored = (codes "out/a", content) ∷ sealed

abbrev pub rand : Str → ℕ → Bytes
rand path i = replicate 12 i

abbrev pub to_enc : Task
to_enc = record { index = 0; source = codes "in/a"; dest = codes "enc/a.enc" }

abbrev pub to_out : Task
to_out = record { index = 0; source = codes "enc/a.enc"; dest = codes "out/a" }

-- A directory of one file, on which the loop does no more than to launch a thread.
pub one-IsSafe :
    (P : Platform) (D : Disk P) (L : IsDisk P D) (body : Str → Action P.Fs (Option (Str × Str)))
    (source dest : Str)
    → ((s : P.Fs) → P.open_out s dest ≡ ok tt)
    → dest ≢ source
    → ((s : P.Fs)
        → (body source s ≡ (ok (some (source, dest)), s)) ⊎ (body source s ≡ (ok none, s)))
    → IsSafe P D L body (source ∷ []) ((source, dest) ∷ [])
one-IsSafe P D L body source dest opens ne run =
    let same : (item : Str) (s : P.Fs) → Memᴰ item (source ∷ []) → (body item s).1 ≡ s = λ item s m.
      elim m [
        | Memᴰ.head e ↦ rw e (elim (run s) [
          | inl launched ↦ ap (λ r. r.1) launched
          | inr nothing ↦ ap (λ r. r.1) nothing
        ])
        | Memᴰ.tail n ↦ elim n [ ]
      ] in
    record {
      launches = λ item s t p m e. elim m [
        | Memᴰ.head q ↦ elim (run s) [
          | inl launched ↦
              let pair : (source, dest) ≡ p = (let h = rw q at e in cc (h, launched)) in
              (Memᴰ.head (sym pair), rw (← pair) (opens t))
          | inr nothing ↦ absurd (let h = rw q at e in cc (h, nothing))
        ]
        | Memᴰ.tail n ↦ elim n [ ]
      ];
      sources_kept = λ item p s m n. ap (λ t. L.content t p.0) (same item s m);
      dests_kept = λ item p s m n. ap (λ t. L.content t p.1) (same item s m);
      opens_stay = λ item q s m o. ap (λ t. P.open_out t q) (same item s m) ∙ o;
      independent = λ a b m n. elim m [
        | Memᴰ.head e ↦ elim n [
          | Memᴰ.head g ↦ (
            λ q. ne (sym (ap (λ (p : Str × Str). p.1) e) ∙ q ∙ ap (λ (p : Str × Str). p.0) g),
            λ _. ap (λ (p : Str × Str). p.0) (e ∙ sym g),
          )
          | Memᴰ.tail k ↦ elim k [ ]
        ]
        | Memᴰ.tail k ↦ elim k [ ]
      ];
    }

pub in-ne-enc : codes "enc/a.enc" ≢ codes "in/a"
unfolding str_eq
in-ne-enc e =
    let same : str_eq (codes "enc/a.enc") (codes "in/a") ≡ true =
      (str_eq_iff (codes "enc/a.enc") (codes "in/a")).1 e in
    ground arith

pub enc-ne-out : codes "out/a" ≢ codes "enc/a.enc"
unfolding str_eq
enc-ne-out e =
    let same : str_eq (codes "out/a") (codes "enc/a.enc") ≡ true =
      (str_eq_iff (codes "out/a") (codes "enc/a.enc")).1 e in
    ground arith

shelf_parent : (p : Str) (s : Files) → make_parent shelf shelf_disk p s ≡ (ok tt, s)
unfolding make_parent
shelf_parent p s = ground arith

enc_round :
    (s : Files)
    → (encrypt_item shelf shelf_disk (codes "in") (codes "enc") (codes "in/a") s
        ≡ (ok (some (codes "in/a", codes "enc/a.enc")), s))
      ⊎ (encrypt_item shelf shelf_disk (codes "in") (codes "enc") (codes "in/a") s ≡ (ok none, s))
unfolding encrypt_item
enc_round s = elim (Bool-cases (shelf_disk.is_regular_file s (codes "in/a"))) [
  | inl file ↦ inl (rw (file, shelf_parent (codes "enc/a.enc") s))
  | inr other ↦ inr (rw other)
]

out_round :
    (s : Files)
    → (decrypt_item shelf shelf_disk (codes "enc") (codes "out") (codes "enc/a.enc") s
        ≡ (ok (some (codes "enc/a.enc", codes "out/a")), s))
      ⊎ (decrypt_item shelf shelf_disk (codes "enc") (codes "out") (codes "enc/a.enc") s
          ≡ (ok none, s))
unfolding decrypt_item str_eq
out_round s = elim (Bool-cases (shelf_disk.is_regular_file s (codes "enc/a.enc"))) [
  | inl file ↦ inl (rw (file, shelf_parent (codes "out/a.enc") s))
  | inr other ↦ inr (rw other)
]

pub enc-IsSafe :
    IsSafe shelf shelf_disk shelf_disk-IsDisk
      (encrypt_item shelf shelf_disk (codes "in") (codes "enc"))
      (codes "in/a" ∷ [])
      ((codes "in/a", codes "enc/a.enc") ∷ [])
enc-IsSafe =
    one-IsSafe shelf shelf_disk shelf_disk-IsDisk
      (encrypt_item shelf shelf_disk (codes "in") (codes "enc")) (codes "in/a") (codes "enc/a.enc")
      (λ s. refl) in-ne-enc enc_round

pub out-IsSafe :
    IsSafe shelf shelf_disk shelf_disk-IsDisk
      (decrypt_item shelf shelf_disk (codes "enc") (codes "out"))
      (codes "enc/a.enc" ∷ [])
      ((codes "enc/a.enc", codes "out/a") ∷ [])
out-IsSafe =
    one-IsSafe shelf shelf_disk shelf_disk-IsDisk
      (decrypt_item shelf shelf_disk (codes "enc") (codes "out")) (codes "enc/a.enc")
      (codes "out/a") (λ s. refl) enc-ne-out out_round

-- The loop goes to its end before the thread ends.
abbrev pub schedule : List Step
schedule = round ∷ thread 0 ∷ []

abbrev pub enc_loop : Loop Files
enc_loop = record {
  items = [];
  next = 1;
  launched = to_enc ∷ [];
  results = (0, ok tt) ∷ [];
  ended = ok tt;
  state = sealed;
}

abbrev pub out_loop : Loop Files
out_loop = record {
  items = [];
  next = 1;
  launched = to_out ∷ [];
  results = (0, ok tt) ∷ [];
  ended = ok tt;
  state = restored;
}

pub enc_looped :
    encrypt_loop shelf shelf_disk schedule rand (codes "in") (codes "enc") key plain ≡ enc_loop
unfolding encrypt_loop run_loop start steps step one_round after_round emplace task_at end_at
    end_thread has_ended rounds wait encrypt_item make_parent str_eq written_to encrypt_file packets
    header_writes int_to_bytes encrypt_blocks encrypt_data_block encrypt_with_key block_writes
enc_looped = refl

pub out_looped :
    decrypt_loop shelf shelf_disk schedule (codes "enc") (codes "out") key sealed ≡ out_loop
unfolding decrypt_loop run_loop start steps step one_round after_round emplace task_at end_at
    end_thread has_ended rounds wait decrypt_item make_parent str_eq written_to decrypt_file
    read_header read_blocks bytes_to_int join_bytes check_header decrypt_blocks decrypt_data_block
    decrypt_with_key
out_looped = refl

pub encrypted :
    encrypt_directory shelf shelf_disk schedule rand (codes "in") (codes "enc") key plain
    ≡ (ok tt, sealed)
unfolding encrypt_directory join_all get_all get
encrypted = rw enc_looped

pub plain-IsReady :
    (p : Str × Str)
    → Memᴰ p ((codes "in/a", codes "enc/a.enc") ∷ [])
    → IsReady shelf
        (platform_of-IsPlatform open_path)
        shelf_disk
        shelf_disk-IsDisk
        key
        (inl refl)
        rand
        (λ path i. refl)
        opens_path
        plain
        p
unfolding str_eq
plain-IsReady p (Memᴰ.head e) = rw e (content, refl, omega arith, omega arith)
plain-IsReady p (Memᴰ.tail n) = elim n [ ]

pub enc_launched :
    Memᴰ to_enc
      (encrypt_loop shelf shelf_disk schedule rand (codes "in") (codes "enc") key plain).launched
enc_launched = subst (λ l. Memᴰ to_enc l.launched) (sym enc_looped) (Memᴰ.head refl)

pub out_launched :
    Memᴰ to_out
      (decrypt_loop shelf shelf_disk schedule (codes "enc") (codes "out") key sealed).launched
out_launched = subst (λ l. Memᴰ to_out l.launched) (sym out_looped) (Memᴰ.head refl)

pub enc_good :
    (encrypt_loop shelf shelf_disk schedule rand (codes "in") (codes "enc") key plain).ended ≡ ok tt
enc_good = ap (λ l. l.ended) enc_looped

pub out_good :
    (decrypt_loop shelf shelf_disk schedule (codes "enc") (codes "out") key sealed).ended ≡ ok tt
out_good = ap (λ l. l.ended) out_looped

pub copied :
    shelf_disk-IsDisk.content sealed (codes "enc/a.enc")
    ≡ shelf_disk-IsDisk.content
        (encrypt_directory shelf shelf_disk schedule rand (codes "in") (codes "enc") key plain).1
        (codes "enc/a.enc")
copied = ap (λ r. shelf_disk-IsDisk.content r.1 (codes "enc/a.enc")) (sym encrypted)

pub sealed-IsCopy :
    (p : Str × Str)
    → Memᴰ p ((codes "enc/a.enc", codes "out/a") ∷ [])
    → IsCopy shelf
        (platform_of-IsPlatform open_path)
        shelf_disk
        shelf_disk-IsDisk
        key
        (inl refl)
        rand
        (λ path i. refl)
        opens_path
        schedule
        (codes "in")
        (codes "enc")
        plain
        ((codes "in/a", codes "enc/a.enc") ∷ [])
        enc-IsSafe
        enc_good
        plain-IsReady
        sealed
        p.0
sealed-IsCopy p (Memᴰ.head e) = rw e (to_enc, enc_launched, copied)
sealed-IsCopy p (Memᴰ.tail n) = elim n [ ]
