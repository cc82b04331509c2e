-- ===== src/CryptoUtil/Directory/Unordered.antt =====
-- The threads of a directory do not depend on their order, nor on how they fall between the rounds of the loop,
-- if no file is written by two of them, by one and by the loop, or read by one and written by another.
use mathlib.Core.List.{Memᴰ}
use trustflow.Base.{
  ℕ, ◌==◌, ==_iff, ◌≡◌, ◌≢◌, refl, sym, ap, ◌∙◌, inl, inr, arith, Bool-cases, true, Option, none,
  some, List, [], ◌∷◌, Bytes, Str, str_eq, str_eq_iff,
}
use trustflow.Error.{Result, ok}
use trustflow.Action.{Action}
use trustflow.CryptoUtil.Platform.{Platform}
use trustflow.CryptoUtil.Disk.{Disk, IsDisk}
use trustflow.CryptoUtil.Tasks.{
  Task, Results, get, get_all, has_ended, task_at, Step, round, thread, Loop, start, end_thread,
  end_at, step, steps, rounds, wait, run_loop, join_all,
}
use trustflow.CryptoUtil.Directory.Order.{
  outcome, in_order, get_here, get_there, other_kept, opens_kept, there, thrown,
}
use trustflow.CryptoUtil.Directory.Safe.{
  IsLocal, IsSafe, IsSpared, IsLike, IsSound, like, same_result, started, round-IsSound,
  task_at-Mem, work,
}

module _ (P : Platform) (D : Disk P) (L : IsDisk P D) (f : P.Fs → Str → Str → Result Bytes)
    (local : IsLocal P D L f) (body : Str → Action P.Fs (Option (Str × Str))) (items : List Str)
    (pairs : List (Str × Str)) (safe : IsSafe P D L body items pairs) (s0 : P.Fs) where
  -- What a thread leaves at the destination of a task.
  left_there :
      (l : Loop P.Fs) (t b : Task) (u : P.Fs) (w : Bytes)
      → IsSound P D L f local body items pairs safe s0 l
      → Memᴰ t l.launched
      → Memᴰ b l.launched
      → IsLike P D L f local body items pairs safe s0 u b
      → f u b.source b.dest ≡ ok w
      → (t.dest ≢ b.dest → L.content l.state b.dest ≡ some w)
      → L.content (work P D L f local body items pairs safe s0 t.source t.dest l.state).1 b.dest
        ≡ some w
  left_there l t b u w i m n lk e other = elim (Bool-cases (str_eq t.dest b.dest)) [
    | inl hit ↦
        let same = (str_eq_iff t.dest b.dest).0 hit in
        let source : t.source ≡ b.source =
          (safe.independent (t.source, t.dest) (b.source, b.dest) (i.of_pairs t m)
              (i.of_pairs b n)).1
            same in
        let run : f l.state t.source t.dest ≡ ok w =
          rw (source, same)
            (same_result P D L f local body items pairs safe s0 l.state u b
                (like P D L f local body items pairs safe s0 l i b n) lk
              ∙ e) in
        rw (← same) (there P D L t.dest (f l.state t.source t.dest) w l.state run)
    | inr miss ↦
        let ne : t.dest ≢ b.dest = λ q. ground (arith, str_eq_iff t.dest b.dest) in
        other_kept P D L t.dest b.dest (f l.state t.source t.dest) l.state ne ∙ other ne
  ]

  ended :
      (l : Loop P.Fs) (t : Task)
      → IsSound P D L f local body items pairs safe s0 l
      → Memᴰ t l.launched
      → IsSound P D L f local body items pairs safe s0 (record l {
        results =
            (t.index, (work P D L f local body items pairs safe s0 t.source t.dest l.state).0)
            ∷ l.results;
        state = (work P D L f local body items pairs safe s0 t.source t.dest l.state).1;
      })
  unfolding has_ended
  ended l t i m = record {
    items_left = i.items_left;
    of_pairs = i.of_pairs;
    opens = λ b n. opens_kept P D L t.dest b.dest (f l.state t.source t.dest) l.state ∙ i.opens b n;
    below = i.below;
    places = i.places;
    ended_below = λ j h. elim (Bool-cases (t.index == j)) [
      | inl hit ↦ omega (arith, (==_iff t.index j).0 hit, i.below t m)
      | inr miss ↦ i.ended_below j (rw miss at h)
    ];
    spared = λ q sp.
        other_kept P D L t.dest q (f l.state t.source t.dest) l.state
          (sp.1 (t.source, t.dest) (i.of_pairs t m))
        ∙ i.spared q sp;
    settled = λ b n h u lk. elim (Bool-cases (t.index == b.index)) [
      | inl hit ↦
          let same : t ≡ b = i.places t b m n ((==_iff t.index b.index).0 hit) in
          let result =
            get_here b.index t.index
              (work P D L f local body items pairs safe s0 t.source t.dest l.state).0 l.results
              ((==_iff t.index b.index).0 hit)
            ∙ thrown P D L t.dest (f l.state t.source t.dest) l.state in
          (
            result
                ∙ ap (λ (x : Task). outcome (f l.state x.source x.dest)) same
                ∙ ap outcome (
                    same_result P D L f local body items pairs safe s0 l.state u b
                      (like P D L f local body items pairs safe s0 l i b n) lk),
            λ w e.
                left_there l t b u w i m n lk e λ ne. absurd (ne (ap (λ (x : Task). x.dest) same)),
          )
      | inr miss ↦
          let old = i.settled b n (rw miss at h) u lk in
          (
            get_there b.index t.index
                  (work P D L f local body items pairs safe s0 t.source t.dest l.state).0 l.results
                  miss
                ∙ old.0,
            λ w e. left_there l t b u w i m n lk e λ ne. old.1 w e,
          )
    ];
  }

  thread-IsSound :
      (t : Task) (l : Loop P.Fs)
      → Memᴰ t l.launched
      → IsSound P D L f local body items pairs safe s0 l
      → IsSound P D L f local body items pairs safe s0
          (end_thread (work P D L f local body items pairs safe s0) body t l)
  unfolding end_thread
  thread-IsSound t l m i = elim (Bool-cases (has_ended t.index l.results)) [
    | inl before ↦ rw before i
    | inr now ↦ rw now (ended l t i m)
  ]

  at-IsSound :
      (o : Option Task) (l : Loop P.Fs)
      → ((t : Task) → o ≡ some t → Memᴰ t l.launched)
      → IsSound P D L f local body items pairs safe s0 l
      → IsSound P D L f local body items pairs safe s0
          (end_at (work P D L f local body items pairs safe s0) body o l)
  unfolding end_at
  at-IsSound none l h i = i
  at-IsSound (some t) l h i = thread-IsSound t l (h t refl) i

  step-IsSound :
      (e : Step) (l : Loop P.Fs)
      → IsSound P D L f local body items pairs safe s0 l
      → IsSound P D L f local body items pairs safe s0
          (step (work P D L f local body items pairs safe s0) body e l)
  unfolding step
  step-IsSound round l i =
      round-IsSound P D L f local body items pairs safe s0 l.items l i.items_left i
  step-IsSound (thread j) l i = at-IsSound (task_at j l.launched) l (task_at-Mem j l.launched) i

  steps-IsSound :
      (es : List Step) (l : Loop P.Fs)
      → IsSound P D L f local body items pairs safe s0 l
      → IsSound P D L f local body items pairs safe s0
          (steps (work P D L f local body items pairs safe s0) body es l)
  unfolding steps
  steps-IsSound [] l i = i
  steps-IsSound (e ∷ es) l i =
      steps-IsSound es (step (work P D L f local body items pairs safe s0) body e l)
        (step-IsSound e l i)

  rounds-IsSound :
      (left : List Str) (l : Loop P.Fs)
      → IsSound P D L f local body items pairs safe s0 l
      → IsSound P D L f local body items pairs safe s0
          (rounds (work P D L f local body items pairs safe s0) body left l)
  unfolding rounds
  rounds-IsSound [] l i = i
  rounds-IsSound (item ∷ left) l i =
      rounds-IsSound left (step (work P D L f local body items pairs safe s0) body round l)
        (step-IsSound round l i)

  -- A thread that is waited for has ended, and no other one is started P D L f local body items pairs safe s0 again.
  abbrev IsWaitedFor : List Task → Loop P.Fs → Loop P.Fs → Type 0
  IsWaitedFor ts l r =
      IsSound P D L f local body items pairs safe s0 r
      × (r.launched ≡ l.launched)
      × (r.ended ≡ l.ended)
      × ((j : ℕ) → has_ended j l.results ≡ true → has_ended j r.results ≡ true)
      × ((t : Task) → Memᴰ t ts → has_ended t.index r.results ≡ true)

  one_waited :
      (t : Task) (l : Loop P.Fs)
      → Memᴰ t l.launched
      → IsSound P D L f local body items pairs safe s0 l
      → IsWaitedFor (t ∷ []) l (end_thread (work P D L f local body items pairs safe s0) body t l)
  unfolding end_thread has_ended
  one_waited t l m i =
      let sound = thread-IsSound t l m i in
      elim (Bool-cases (has_ended t.index l.results)) [
        | inl before ↦ (
          sound,
          rw before,
          rw before,
          λ j h. rw before h,
          λ u n. elim n [ Memᴰ.head e ↦ rw (before, e) before | Memᴰ.tail k ↦ elim k [ ] ],
        )
        | inr now ↦ (
          sound,
          rw now,
          rw now,
          λ j h. rw now (ground arith),
          λ u n. elim n [
            | Memᴰ.head e ↦
                rw (now, (==_iff t.index u.index).1 (ap (λ (x : Task). x.index) (sym e)))
            | Memᴰ.tail k ↦ elim k [ ]
          ],
        )
      ]

  all_waited :
      (ts : List Task) (l : Loop P.Fs)
      → ((t : Task) → Memᴰ t ts → Memᴰ t l.launched)
      → IsSound P D L f local body items pairs safe s0 l
      → IsWaitedFor ts l (wait (work P D L f local body items pairs safe s0) body ts l)
  unfolding wait
  all_waited [] l h i = (i, refl, refl, λ j e. e, λ t m. elim m [ ])
  all_waited (t ∷ ts) l h i =
      let (i1, same1, ended1, kept1, here) = one_waited t l (h t (Memᴰ.head refl)) i in
      let (i2, same2, ended2, kept2, more) =
        all_waited ts (end_thread (work P D L f local body items pairs safe s0) body t l)
          (λ u m. rw same1 (h u (Memᴰ.tail m))) i1 in
      (
        i2,
        same2 ∙ same1,
        ended2 ∙ ended1,
        λ j e. kept2 j (kept1 j e),
        λ u m. elim m [
          | Memᴰ.head e ↦ kept2 u.index (here u (Memᴰ.head e))
          | Memᴰ.tail n ↦ more u n
        ],
      )

  got_in_order :
      (results : Results) (s : P.Fs) (ts : List Task)
      → ((t : Task) → Memᴰ t ts → get t.index results ≡ outcome (f s t.source t.dest))
      → get_all ts results ≡ in_order f s ts
  unfolding get_all
  got_in_order results s [] h = refl
  got_in_order results s (t ∷ ts) h =
      rw (h t (Memᴰ.head refl), got_in_order results s ts λ b m. h b (Memᴰ.tail m))

  -- What a loop comes to with its threads, whatever the schedule is. If it does not throw, then the first exception in
  -- the order of the vector is thrown, if there is one. Each task that succeeds has left its file, all files that
  -- neither loop nor threads write are as they were, and the tasks would do the same once more.
  abbrev pub IsFinished : Loop P.Fs → Type 0
  IsFinished l =
      (l.ended ≡ ok tt → (join_all l).0 ≡ in_order f l.state l.launched)
      × ((t : Task)
          → Memᴰ t l.launched
          → Memᴰ (t.source, t.dest) pairs
            × (L.content l.state t.source ≡ L.content s0 t.source)
            × (P.open_out l.state t.dest ≡ ok tt))
      × ((t : Task) (w : Bytes)
          → Memᴰ t l.launched
          → f l.state t.source t.dest ≡ ok w
          → L.content l.state t.dest ≡ some w)
      × ((q : Str)
          → IsSpared P D L f local body items pairs safe s0 q
          → L.content l.state q ≡ L.content s0 q)

  pub run_loop-IsFinished :
      (schedule : List Step)
      → IsFinished (run_loop (work P D L f local body items pairs safe s0) body schedule items s0)
  unfolding run_loop join_all
  run_loop-IsFinished schedule =
      let scheduled =
        steps (work P D L f local body items pairs safe s0) body schedule (start items s0) in
      let looped =
        rounds (work P D L f local body items pairs safe s0) body scheduled.items scheduled in
      let i = rounds-IsSound scheduled.items scheduled (
        steps-IsSound schedule (start items s0) (started P D L f local body items pairs safe s0)) in
      let (sound, same, ended, kept, all) = all_waited looped.launched looped (λ t m. m) i in
      let l = wait (work P D L f local body items pairs safe s0) body looped.launched looped in
      let done = λ (t : Task) (m : Memᴰ t l.launched). all t (rw same at m) in
      (
        λ good. rw good (
            got_in_order l.results l.state l.launched λ t m.
              (sound.settled t m (done t m) l.state
                (like P D L f local body items pairs safe s0 l sound t m)).0),
        λ t m. (
          sound.of_pairs t m,
          (like P D L f local body items pairs safe s0 l sound t m).0,
          (like P D L f local body items pairs safe s0 l sound t m).1,
        ),
        λ t w m e.
            (sound.settled t m (done t m) l.state
                (like P D L f local body items pairs safe s0 l sound t m)).1
              w e,
        sound.spared,
      )
