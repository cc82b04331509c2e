-- ===== src/CryptoUtil/Directory/Order.antt =====
-- What a task throws, its place among the results, and what it leaves.
use trustflow.Base.{
  ℕ, ◌==◌, ==_iff, ◌≡◌, ◌≢◌, refl, ◌∙◌, false, some, List, [], ◌∷◌, Bytes, Str, str_eq_refl,
  str_eq_of_ne,
}
use trustflow.Error.{Result, ok, throw, undefined, ◌>>◌}
use trustflow.CryptoUtil.Platform.{Platform}
use trustflow.CryptoUtil.Disk.{Disk, IsDisk}
use trustflow.CryptoUtil.Tasks.{Task, Results, get}
use trustflow.CryptoUtil.Directory.{written_to}

-- What a task throws, if it does.
abbrev pub outcome : Result Bytes → Result (Unit {0})
outcome (ok w) = ok tt
outcome (throw x) = throw x
outcome undefined = undefined

-- The exceptions in the order of the vector: the first one counts.
abbrev pub in_order :
    {S : Type 0} → (S → Str → Str → Result Bytes) → S → List Task → Result (Unit {0})
in_order f s [] = ok tt
in_order f s (t ∷ ts) = outcome (f s t.source t.dest) >> in_order f s ts

pub get_here : (i j : ℕ) (r : Result (Unit {0})) (rs : Results) → j ≡ i → get i ((j, r) ∷ rs) ≡ r
unfolding get
get_here i j r rs e = rw ((==_iff j i).1 e)

pub get_there :
    (i j : ℕ) (r : Result (Unit {0})) (rs : Results)
    → (j == i) ≡ false
    → get i ((j, r) ∷ rs) ≡ get i rs
unfolding get
get_there i j r rs e = rw e

module _ (P : Platform) (D : Disk P) (L : IsDisk P D) where
  pub other_kept :
      (d q : Str) (r : Result Bytes) (s : P.Fs)
      → d ≢ q
      → L.content (written_to P D d r s).1 q ≡ L.content s q
  unfolding written_to
  other_kept d q (ok w) s ne = L.content-write d q w s ∙ rw (str_eq_of_ne d q ne)
  other_kept d q (throw x) s ne = L.content-abandon d q s (str_eq_of_ne d q ne)
  other_kept d q undefined s ne = refl

  pub opens_kept :
      (d q : Str) (r : Result Bytes) (s : P.Fs)
      → P.open_out (written_to P D d r s).1 q ≡ P.open_out s q
  unfolding written_to
  opens_kept d q (ok w) s = L.open_out-write d q w s
  opens_kept d q (throw x) s = L.open_out-abandon d q s
  opens_kept d q undefined s = refl

  pub there :
      (d : Str) (r : Result Bytes) (w : Bytes) (s : P.Fs)
      → r ≡ ok w
      → L.content (written_to P D d r s).1 d ≡ some w
  unfolding written_to
  there d r w s e = rw e (L.content-write d d w s ∙ rw (str_eq_refl d))

  pub thrown : (d : Str) (r : Result Bytes) (s : P.Fs) → (written_to P D d r s).0 ≡ outcome r
  unfolding written_to
  thrown d (ok w) s = refl
  thrown d (throw x) s = refl
  thrown d undefined s = refl
