-- ===== src/CryptoUtil/Directory/Safe.antt =====
-- A loop over a directory whose rounds and threads keep out of each other's way: what holds after every round.
use mathlib.Core.List.{Memᴰ}
use trustflow.Base.{
  ℕ, ◌<◌, ◌==◌, ◌≡◌, ◌≢◌, ◌⊎◌, refl, sym, ap, ◌∙◌, inl, inr, arith, Bool-cases, true, Option, none,
  some, List, [], ◌∷◌, ◌++◌, Bytes, Str,
}
use trustflow.Error.{Result, ok, throw, undefined}
use trustflow.Action.{Action}
use trustflow.CryptoUtil.Platform.{Platform}
use trustflow.CryptoUtil.Disk.{Disk, IsDisk}
use trustflow.CryptoUtil.Tasks.{
  Task, get, has_ended, task_at, Loop, start, emplace, after_round, one_round,
}
use trustflow.CryptoUtil.Directory.{written_to}
use trustflow.CryptoUtil.Directory.Order.{outcome}

-- A source is read where it lies: the result depends on its content, and on whether the destination
-- can be written.
abbrev pub IsLocal :
    (P : Platform) (D : Disk P) → IsDisk P D → (P.Fs → Str → Str → Result Bytes) → Type 0
IsLocal P D L f =
    (s t : P.Fs) (src dest : Str)
    → L.content s src ≡ L.content t src
    → P.open_out s dest ≡ P.open_out t dest
    → f s src dest ≡ f t src dest

snoc_cases : {A : Type 0} (x y : A) (xs : List A) → Memᴰ x (xs ++ (y ∷ [])) → Memᴰ x xs ⊎ (x ≡ y)
snoc_cases x y [] (Memᴰ.head e) = inr e
snoc_cases x y [] (Memᴰ.tail m) = elim m [ ]
snoc_cases x y (z ∷ xs) (Memᴰ.head e) = inl (Memᴰ.head e)
snoc_cases x y (z ∷ xs) (Memᴰ.tail m) = elim (snoc_cases x y xs m) [
  | inl n ↦ inl (Memᴰ.tail n)
  | inr e ↦ inr e
]

pub task_at-Mem : (i : ℕ) (ts : List Task) (t : Task) → task_at i ts ≡ some t → Memᴰ t ts
unfolding task_at
task_at-Mem i [] t e = cc
task_at-Mem i (u ∷ ts) t e = elim (Bool-cases (u.index == i)) [
  | inl hit ↦ (let same : some u ≡ some t = rw hit at e in Memᴰ.head cc)
  | inr miss ↦ Memᴰ.tail (task_at-Mem i ts t (rw miss at e))
]

module _ (P : Platform) (D : Disk P) (L : IsDisk P D) where
  -- A loop whose rounds and threads keep out of each other's way. It launches threads for `pairs` of a source and a
  -- destination, whose directory is there then; no round changes a source or a destination of a thread, or makes it
  -- impossible to write a file; no thread writes what one reads, and two that write one file read one file.
  pub record IsSafe (body : Str → Action P.Fs (Option (Str × Str))) (items : List Str)
      (pairs : List (Str × Str)) : Type 0 where
    pub launches :
        (item : Str) (s t : P.Fs) (p : Str × Str)
        → Memᴰ item items
        → body item s ≡ (ok (some p), t)
        → Memᴰ p pairs × (P.open_out t p.1 ≡ ok tt)
    pub sources_kept :
        (item : Str) (p : Str × Str) (s : P.Fs)
        → Memᴰ item items
        → Memᴰ p pairs
        → L.content (body item s).1 p.0 ≡ L.content s p.0
    pub dests_kept :
        (item : Str) (p : Str × Str) (s : P.Fs)
        → Memᴰ item items
        → Memᴰ p pairs
        → L.content (body item s).1 p.1 ≡ L.content s p.1
    pub opens_stay :
        (item q : Str) (s : P.Fs)
        → Memᴰ item items
        → P.open_out s q ≡ ok tt
        → P.open_out (body item s).1 q ≡ ok tt
    pub independent :
        (a b : Str × Str) → Memᴰ a pairs → Memᴰ b pairs → (a.1 ≢ b.0) × (a.1 ≡ b.1 → a.0 ≡ b.0)

module _ (P : Platform) (D : Disk P) (L : IsDisk P D) (f : P.Fs → Str → Str → Result Bytes)
    (local : IsLocal P D L f) (body : Str → Action P.Fs (Option (Str × Str))) (items : List Str)
    (pairs : List (Str × Str)) (safe : IsSafe P D L body items pairs) (s0 : P.Fs) where
  abbrev pub work : Str → Str → Action P.Fs (Unit {0})
  work src dest s = written_to P D dest (f s src dest) s

  -- A file that neither the loop nor a thread writes.
  abbrev pub IsSpared : Str → Type 0
  IsSpared q =
      ((item : Str) (s : P.Fs) → Memᴰ item items → L.content (body item s).1 q ≡ L.content s q)
      × ((p : Str × Str) → Memᴰ p pairs → p.1 ≢ q)

  -- A state in which a task would do what it does in the loop.
  abbrev pub IsLike : P.Fs → Task → Type 0
  IsLike s t = (L.content s t.source ≡ L.content s0 t.source) × (P.open_out s t.dest ≡ ok tt)

  -- What a task has thrown and left.
  abbrev pub IsSettled : Task → Result (Unit {0}) → P.Fs → Type 0
  IsSettled t r s =
      (u : P.Fs)
      → IsLike u t
      → (r ≡ outcome (f u t.source t.dest))
        × ((w : Bytes) → f u t.source t.dest ≡ ok w → L.content s t.dest ≡ some w)

  pub record IsSound (l : Loop P.Fs) : Type 0 where
    pub items_left : (item : Str) → Memᴰ item l.items → Memᴰ item items
    pub of_pairs : (t : Task) → Memᴰ t l.launched → Memᴰ (t.source, t.dest) pairs
    pub opens : (t : Task) → Memᴰ t l.launched → P.open_out l.state t.dest ≡ ok tt
    pub below : (t : Task) → Memᴰ t l.launched → t.index < l.next
    pub places : (a b : Task) → Memᴰ a l.launched → Memᴰ b l.launched → a.index ≡ b.index → a ≡ b
    pub ended_below : (i : ℕ) → has_ended i l.results ≡ true → i < l.next
    pub spared : (q : Str) → IsSpared q → L.content l.state q ≡ L.content s0 q
    pub settled :
        (t : Task)
        → Memᴰ t l.launched
        → has_ended t.index l.results ≡ true
        → IsSettled t (get t.index l.results) l.state

  source-IsSpared : (p : Str × Str) → Memᴰ p pairs → IsSpared p.0
  source-IsSpared p m =
      (λ item s n. safe.sources_kept item p s n m, λ b n. (safe.independent b p n m).0)

  pub like : (l : Loop P.Fs) → IsSound l → (t : Task) → Memᴰ t l.launched → IsLike l.state t
  like l i t m =
      (i.spared t.source (source-IsSpared (t.source, t.dest) (i.of_pairs t m)), i.opens t m)

  pub same_result :
      (s u : P.Fs) (t : Task) → IsLike s t → IsLike u t → f s t.source t.dest ≡ f u t.source t.dest
  same_result s u t (e, o) (e', o') = local s u t.source t.dest (e ∙ sym e') (o ∙ sym o')

  pub started : IsSound (start items s0)
  unfolding start has_ended
  started = record {
    items_left = λ item m. m;
    of_pairs = λ t m. elim m [ ];
    opens = λ t m. elim m [ ];
    below = λ t m. elim m [ ];
    places = λ a b m n e. elim m [ ];
    ended_below = λ i e. absurd (ground arith);
    spared = λ q sp. refl;
    settled = λ t m e. elim m [ ];
  }

  -- A round changes the state, and not what the threads read and write.
  moved :
      (l : Loop P.Fs) (item : Str) (more : List Str) (s : P.Fs) (ended : Result (Unit {0}))
      → Memᴰ item items
      → ((j : Str) → Memᴰ j more → Memᴰ j items)
      → (body item l.state).1 ≡ s
      → IsSound l
      → IsSound (record l { items = more; ended = ended; state = s })
  moved l item more s ended m left e i = record {
    items_left = left;
    of_pairs = i.of_pairs;
    opens = λ t n. rw (← e) (safe.opens_stay item t.dest l.state m (i.opens t n));
    below = i.below;
    places = i.places;
    ended_below = i.ended_below;
    spared = λ q sp. rw (← e) (sp.0 item l.state m ∙ i.spared q sp);
    settled = λ t n h u lk. (
      (i.settled t n h u lk).0,
      λ w g. rw (← e) (
          safe.dests_kept item (t.source, t.dest) l.state m (i.of_pairs t n)
          ∙ (i.settled t n h u lk).1 w g),
    );
  }

  -- A thread is launched.
  added :
      (l : Loop P.Fs) (p : Str × Str)
      → Memᴰ p pairs
      → P.open_out l.state p.1 ≡ ok tt
      → IsSound l
      → IsSound (emplace (some p) l)
  unfolding emplace
  added l p m o i =
      let new : Task = record { index = l.next; source = p.0; dest = p.1 } in
      let which =
        λ (t : Task) (n : Memᴰ t (l.launched ++ (new ∷ []))). snoc_cases t new l.launched n in
      record {
        items_left = i.items_left;
        of_pairs = λ t n. elim (which t n) [ inl old ↦ i.of_pairs t old | inr e ↦ rw e m ];
        opens = λ t n. elim (which t n) [ inl old ↦ i.opens t old | inr e ↦ rw e o ];
        below = λ t n. elim (which t n) [
          | inl old ↦ omega (arith, i.below t old)
          | inr e ↦ omega (arith, ap (λ (u : Task). u.index) e)
        ];
        places = λ a b n k same. elim (which a n) [
          | inl olda ↦ (elim (which b k) [
            | inl oldb ↦ i.places a b olda oldb same
            | inr e ↦ absurd (omega (arith, i.below a olda, ap (λ (u : Task). u.index) e))
          ])
          | inr e ↦ (elim (which b k) [
            | inl oldb ↦ absurd (omega (arith, i.below b oldb, ap (λ (u : Task). u.index) e))
            | inr e' ↦ e ∙ sym e'
          ])
        ];
        ended_below = λ j h. omega (arith, i.ended_below j h);
        spared = i.spared;
        settled = λ t n h. elim (which t n) [
          | inl old ↦ i.settled t old h
          | inr e ↦ absurd (omega (arith, i.ended_below t.index h, ap (λ (u : Task). u.index) e))
        ];
      }

  after :
      (l : Loop P.Fs) (item : Str) (more : List Str) (r : Result (Option (Str × Str)) × P.Fs)
      → Memᴰ item items
      → ((j : Str) → Memᴰ j more → Memᴰ j items)
      → body item l.state ≡ r
      → IsSound l
      → IsSound (after_round more r l)
  unfolding after_round emplace
  after l item more (ok none, s) m left e i = moved l item more s l.ended m left (ap (λ x. x.1) e) i
  after l item more (ok (some p), s) m left e i =
      let (n, o) = safe.launches item l.state s p m e in
      added (record l { items = more; state = s }) p n o
        (moved l item more s l.ended m left (ap (λ x. x.1) e) i)
  after l item more (throw x, s) m left e i =
      moved l item [] s (throw x) m (λ j n. elim n [ ]) (ap (λ x. x.1) e) i
  after l item more (undefined, s) m left e i =
      moved l item [] s undefined m (λ j n. elim n [ ]) (ap (λ x. x.1) e) i

  pub round-IsSound :
      (left : List Str) (l : Loop P.Fs)
      → ((j : Str) → Memᴰ j left → Memᴰ j items)
      → IsSound l
      → IsSound (one_round work body left l)
  unfolding one_round
  round-IsSound [] l h i = i
  round-IsSound (item ∷ more) l h i =
      after l item more (body item l.state) (h item (Memᴰ.head refl)) (λ j m. h j (Memᴰ.tail m))
        refl i
