-- ===== src/CryptoUtil/Tasks.antt =====
-- The loops over a directory in `EncryptToDir` and `DecryptToDir`, with the threads that they launch and the
-- vector of their futures.
use trustflow.Base.{
  ℕ, suc, ◌==◌, Bool, true, false, Option, none, some, List, [], ◌∷◌, ◌++◌, Str, if◌then◌else◌,
}
use trustflow.Error.{Result, ok, throw, undefined, ◌>>◌}
use trustflow.Action.{Action}

-- The place in the vector, and the arguments of the call.
pub record Task : Type 0 where
  pub index : ℕ
  pub source : Str
  pub dest : Str

abbrev pub Results : Type 0
Results = List (ℕ × Result (Unit {0}))

-- `future.get()`
unfoldable pub get : ℕ → Results → Result (Unit {0})
get i [] = undefined
get i ((j, r) ∷ results) = let rest = get i results in if j == i then r else rest

-- The loop over the futures: the first exception in the order of the vector is thrown.
unfoldable pub get_all : List Task → Results → Result (Unit {0})
get_all [] results = ok tt
get_all (t ∷ tasks) results = get t.index results >> get_all tasks results

-- Has the thread at a place of the vector ended?
unfoldable pub has_ended : ℕ → Results → Bool
has_ended i [] = false
has_ended i ((j, r) ∷ results) = let rest = has_ended i results in if j == i then true else rest

unfoldable pub task_at : ℕ → List Task → Option Task
task_at i [] = none
task_at i (t ∷ tasks) = let rest = task_at i tasks in if t.index == i then some t else rest

-- What happens next: the loop goes on by one round, or a thread ends.
pub data Step : Type 0 where
  round : Step
  thread : ℕ → Step

-- A loop at work: what the iterator has not yet visited, the vector with its next place, the
-- threads that have ended, how the loop has gone, and the state that loop and threads share.
pub record Loop (S : Type 0) : Type 0 where
  pub items : List Str
  pub next : ℕ
  pub launched : List Task
  pub results : Results
  pub ended : Result (Unit {0})
  pub state : S

unfoldable pub start : {S : Type 0} → List Str → S → Loop S
start items s = record {
  items = items;
  next = 0;
  launched = [];
  results = [];
  ended = ok tt;
  state = s;
}

-- `futures.emplace_back(...)`, if a task is launched.
unfoldable pub emplace : {S : Type 0} → Option (Str × Str) → Loop S → Loop S
emplace none l = l
emplace (some (source, dest)) l = record l {
  next = suc l.next;
  launched = l.launched ++ (record { index = l.next; source = source; dest = dest } ∷ []);
}

-- The loop after a round: an exception leaves it.
unfoldable pub after_round :
    {S : Type 0} → List Str → Result (Option (Str × Str)) × S → Loop S → Loop S
after_round items (ok launched, s) l = emplace launched (record l { items = items; state = s })
after_round items (throw x, s) l = record l { items = []; ended = throw x; state = s }
after_round items (undefined, s) l = record l { items = []; ended = undefined; state = s }

module _ {S : Type 0} (work : Str → Str → Action S (Unit {0}))
    (body : Str → Action S (Option (Str × Str))) where
  -- A thread that has not ended runs, whatever the others throw.
  unfoldable pub end_thread : Task → Loop S → Loop S
  end_thread t l =
      let (r, s) = work t.source t.dest l.state in
      let ended : Loop S = record l { results = (t.index, r) ∷ l.results; state = s } in
      if has_ended t.index l.results then l else ended

  unfoldable pub one_round : List Str → Loop S → Loop S
  one_round [] l = l
  one_round (item ∷ items) l = after_round items (body item l.state) l

  unfoldable pub end_at : Option Task → Loop S → Loop S
  end_at none l = l
  end_at (some t) l = end_thread t l

  -- A step that cannot be made changes nothing.
  unfoldable pub step : Step → Loop S → Loop S
  step round l = one_round l.items l
  step (thread i) l = end_at (task_at i l.launched) l

  unfoldable pub steps : List Step → Loop S → Loop S
  steps [] l = l
  steps (e ∷ es) l = steps es (step e l)

  -- The rounds that are left.
  unfoldable pub rounds : List Str → Loop S → Loop S
  rounds [] l = l
  rounds (item ∷ items) l = rounds items (step round l)

  -- The threads that are still running are waited for.
  unfoldable pub wait : List Task → Loop S → Loop S
  wait [] l = l
  wait (t ∷ tasks) l = wait tasks (end_thread t l)

  -- A loop from its start on, with the steps of the schedule first: threads end between its rounds,
  -- or after the last one.
  unfoldable pub run_loop : List Step → List Str → S → Loop S
  run_loop schedule items s =
      let scheduled = steps schedule (start items s) in
      let looped = rounds scheduled.items scheduled in wait looped.launched looped

-- The loop over the futures. The destructors of the futures wait for all threads if the first loop
-- threw.
unfoldable pub join_all : {S : Type 0} → Loop S → Result (Unit {0}) × S
join_all l = (l.ended >> get_all l.launched l.results, l.state)
