-- ===== src/Service/Attempts/Created.antt =====
-- src/firstgreen/service.py, `_run_started`: the transaction that creates the rows of a run goes through
-- when the ids are new and no task names a dependency twice.
use mathlib.Core.List.{append-nil, append_assoc}
use firstgreen.Prelude.{
  String, Bool, true, false, ◌&&◌, ◌||◌, ◌≡◌, refl, ap, sym, ◌∙◌, List, [], ◌∷◌, ◌++◌, map, ◌==◌,
  arith, All, Bool-cases, inl, inr, any, all, mem, distinct, eq_iff, Within, Within-refl,
}
use firstgreen.Prelude.Result.{ok, Returns, Returns-get}
use firstgreen.Domain.Models.{RunStatus}
use firstgreen.Config.Models.{TaskConfig}
use firstgreen.Config.Dag.{ids}
use firstgreen.Db.Tables.{RunRow, TaskRow, DependencyRow, Database}
use firstgreen.Service.Attempts.{
  task_row, insert_tasks, dependency_rows, insert_dependencies, create_run,
}

any-snoc :
    {A : Type 0} (p : A → Bool) (xs : List A) (x : A) → any p (xs ++ x ∷ []) ≡ (any p xs || p x)
any-snoc p [] x = ground arith
any-snoc p (y ∷ xs) x = ground (arith, any-snoc p xs x)

module _ (run_id : String) (new_ids : String → String)
    (injective : (a b : String) → new_ids a ≡ new_ids b → a ≡ b) where
  new-apart : (a b : String) → (a == b) ≡ false → (new_ids a == new_ids b) ≡ false
  new-apart a b h = elim (Bool-cases (new_ids a == new_ids b)) [
    | inl e ↦
        absurd
          (clash (sym h ∙ (eq_iff a b).1 (injective a b ((eq_iff (new_ids a) (new_ids b)).0 e))))
    | inr e ↦ e
  ]
    where
      clash : false ≡ true → ⊥
      clash h = cc

  -- No stored task has the key of one that is to be inserted.
  abbrev pub clashes : String → TaskRow → Bool
  clashes key r = r.id == new_ids key || r.run_id == run_id && r.task_key == key

  abbrev pub AreNew : List String → List TaskRow → Type 0
  AreNew keys rows = All (λ key. any (clashes key) rows ≡ false) keys

  AreNew-snoc :
      (t : TaskConfig) (keys : List String) (rows : List TaskRow)
      → mem t.id keys ≡ false
      → AreNew keys rows
      → AreNew keys (rows ++ task_row run_id new_ids t ∷ [])
  AreNew-snoc t [] rows n h = tt
  AreNew-snoc t (key ∷ keys) rows n h =
      let other : (t.id == key) ≡ false = ground arith in
      (
        ground (
          arith,
          any-snoc (clashes key) rows (task_row run_id new_ids t),
          h.0,
          new-apart t.id key other,
        ),
        AreNew-snoc t keys rows (ground arith) h.1,
      )

  insert_tasks_total :
      (ts : List TaskConfig) (db : Database)
      → distinct (ids ts) ≡ true
      → AreNew (ids ts) db.tasks
      → insert_tasks run_id new_ids ts db
        ≡ ok (tt, record db { tasks = db.tasks ++ map (task_row run_id new_ids) ts })
  unfolding insert_tasks
  insert_tasks_total [] db d h = rw (append-nil db.tasks) refl
  insert_tasks_total (t ∷ ts) db d h =
      let rows = db.tasks ++ task_row run_id new_ids t ∷ [] in
      rw h.0 (
        insert_tasks_total ts (record db { tasks = rows }) (ground arith)
          (AreNew-snoc t (ids ts) db.tasks (ground arith) h.1)
        ∙ ap (λ (l : List TaskRow). ok (tt, record db { tasks = l }))
            (append_assoc db.tasks (task_row run_id new_ids t ∷ [])
              (map (task_row run_id new_ids) ts)))

  -- The row of a task that is among those inserted.
  row-there :
      (key : String) (ts : List TaskConfig) (rows : List TaskRow)
      → mem key (ids ts) ≡ true
      → any (λ (r : TaskRow). r.id == new_ids key) (rows ++ map (task_row run_id new_ids) ts) ≡ true
  row-there key ts (r ∷ rows) h = ground (arith, row-there key ts rows h)
  row-there key [] [] h = cc
  row-there key (t ∷ ts) [] h = elim (Bool-cases (key == t.id)) [
    | inl e ↦
        let same : new_ids t.id ≡ new_ids key = ap new_ids (sym ((eq_iff key t.id).0 e)) in
        ground (arith, (eq_iff (new_ids t.id) (new_ids key)).1 same)
    | inr e ↦ ground (arith, row-there key ts [] (ground arith))
  ]

  abbrev pair : String → String → DependencyRow
  pair key d = record { task_id = new_ids key; dependency_id = new_ids d }

  abbrev same_pair : DependencyRow → DependencyRow → Bool
  same_pair d r = r.task_id == d.task_id && r.dependency_id == d.dependency_id

  -- Each pair is new when its turn comes, and names stored tasks.
  abbrev Insertable : List TaskRow → List DependencyRow → List DependencyRow → Type 0
  Insertable tasks [] rows = Unit
  Insertable tasks (d ∷ ds) rows =
      (any (same_pair d) rows ≡ false)
      × (any (λ (t : TaskRow). t.id == d.task_id) tasks ≡ true)
      × (any (λ (t : TaskRow). t.id == d.dependency_id) tasks ≡ true)
      × Insertable tasks ds (rows ++ d ∷ [])

  insert_dependencies_total :
      (ds : List DependencyRow) (db : Database)
      → Insertable db.tasks ds db.dependencies
      → Returns (λ _. Unit) (insert_dependencies ds db)
  unfolding insert_dependencies
  insert_dependencies_total [] db h = tt
  insert_dependencies_total (d ∷ ds) db h =
      rw (h.0, h.1, h.2)
        (insert_dependencies_total ds (record db { dependencies = db.dependencies ++ d ∷ [] }) h.3)

  -- No pair of the task with one of the dependencies is stored.
  abbrev Unpaired : String → List String → List DependencyRow → Type 0
  Unpaired key deps rows = All (λ d. any (same_pair (pair key d)) rows ≡ false) deps

  Unpaired-snoc :
      (key e : String) (deps : List String) (rows : List DependencyRow)
      → mem e deps ≡ false
      → Unpaired key deps rows
      → Unpaired key deps (rows ++ pair key e ∷ [])
  Unpaired-snoc key e [] rows n h = tt
  Unpaired-snoc key e (d ∷ deps) rows n h =
      let other : (e == d) ≡ false = ground arith in
      (
        ground
            (arith, any-snoc (same_pair (pair key d)) rows (pair key e), h.0, new-apart e d other),
        Unpaired-snoc key e deps rows (ground arith) h.1,
      )

  -- No dependency of the tasks is stored.
  abbrev pub Unused : List String → List DependencyRow → Type 0
  Unused keys rows =
      All (λ key. any (λ (r : DependencyRow). r.task_id == new_ids key) rows ≡ false) keys

  Unused-snoc :
      (key e : String) (keys : List String) (rows : List DependencyRow)
      → mem key keys ≡ false
      → Unused keys rows
      → Unused keys (rows ++ pair key e ∷ [])
  Unused-snoc key e [] rows n h = tt
  Unused-snoc key e (k ∷ keys) rows n h =
      let other : (key == k) ≡ false = ground arith in
      (
        ground (
          arith,
          any-snoc (λ (r : DependencyRow). r.task_id == new_ids k) rows (pair key e),
          h.0,
          new-apart key k other,
        ),
        Unused-snoc key e keys rows (ground arith) h.1,
      )

  unused-Unpaired :
      (key : String) (deps : List String) (rows : List DependencyRow)
      → any (λ (r : DependencyRow). r.task_id == new_ids key) rows ≡ false
      → Unpaired key deps rows
  unused-Unpaired key [] rows h = tt
  unused-Unpaired key (d ∷ deps) rows h = (no_pair rows h, unused-Unpaired key deps rows h)
    where
      no_pair :
          (rows : List DependencyRow)
          → any (λ (r : DependencyRow). r.task_id == new_ids key) rows ≡ false
          → any (same_pair (pair key d)) rows ≡ false
      no_pair [] h = refl
      no_pair (r ∷ rows) h = ground (arith, no_pair rows)

  module _ (tasks : List TaskRow) (known : List String)
      (stored : (key : String)
        → mem key known ≡ true
        → any (λ (r : TaskRow). r.id == new_ids key) tasks ≡ true) where
    of_task :
        (key : String) (deps keys : List String) (rest rows : List DependencyRow)
        → mem key known ≡ true
        → mem key keys ≡ false
        → Within deps known
        → distinct deps ≡ true
        → Unpaired key deps rows
        → Unused keys rows
        → ((more : List DependencyRow) → Unused keys more → Insertable tasks rest more)
        → Insertable tasks (map (pair key) deps ++ rest) rows
    of_task key [] keys rest rows k n w d h u next = next rows u
    of_task key (e ∷ deps) keys rest rows k n w d h u next = (
      h.0,
      stored key k,
      stored e w.0,
      of_task key deps keys rest (rows ++ pair key e ∷ []) k n w.1 (ground arith)
          (Unpaired-snoc key e deps rows (ground arith) h.1) (Unused-snoc key e keys rows n u) next,
    )

    all-Insertable :
        (ts : List TaskConfig) (rows : List DependencyRow)
        → Within (ids ts) known
        → distinct (ids ts) ≡ true
        → All
            (λ (t : TaskConfig). Within t.dependencies known × (distinct t.dependencies ≡ true))
            ts
        → Unused (ids ts) rows
        → Insertable tasks (dependency_rows new_ids ts) rows
    unfolding dependency_rows
    all-Insertable [] rows w d own u = tt
    all-Insertable (t ∷ ts) rows w d own u =
        of_task t.id t.dependencies (ids ts) (dependency_rows new_ids ts) rows w.0 (ground arith)
          own.0.0 own.0.1 (unused-Unpaired t.id t.dependencies rows u.0) u.1
          (λ more v. all-Insertable ts more w.1 (ground arith) own.1 v)

-- The ids that `new_id` makes differ from each other and from those in the tables, where the run has
-- neither tasks nor dependencies.
pub record IsFresh (run : RunRow) (new_ids : String → String) (ts : List TaskConfig) (db : Database)
    : Type 0 where
  pub injective : (a b : String) → new_ids a ≡ new_ids b → a ≡ b
  pub run_free : any (λ (r : RunRow). r.id == run.id) db.runs ≡ false
  pub tasks_free : AreNew run.id new_ids injective (ids ts) db.tasks
  pub pairs_free : Unused run.id new_ids injective (ids ts) db.dependencies

Within-all : (known deps : List String) → all (λ d. mem d known) deps ≡ true → Within deps known
Within-all known [] h = tt
Within-all known (d ∷ deps) h = (ground arith, Within-all known deps (ground arith))

own-all :
    (known : List String) (ts : List TaskConfig)
    → all (λ (t : TaskConfig). all (λ d. mem d known) t.dependencies) ts ≡ true
    → All (λ (t : TaskConfig). distinct t.dependencies ≡ true) ts
    → All (λ (t : TaskConfig). Within t.dependencies known × (distinct t.dependencies ≡ true)) ts
own-all known [] h d = tt
own-all known (t ∷ ts) h d =
    ((Within-all known t.dependencies (ground arith), d.0), own-all known ts (ground arith) d.1)

-- With distinct ids, known dependencies, none of them named twice, and fresh ids, the rows of the run
-- are created.
pub create_total :
    (run : RunRow) (new_ids : String → String) (ts : List TaskConfig) (db : Database)
    → distinct (ids ts) ≡ true
    → all (λ (t : TaskConfig). all (λ d. mem d (ids ts)) t.dependencies) ts ≡ true
    → All (λ (t : TaskConfig). distinct t.dependencies ≡ true) ts
    → IsFresh run new_ids ts db
    → (create_run run new_ids ts db).0 ≡ ok tt
unfolding create_run
create_total run new_ids ts db d known own f =
    let opened : Database = record db {
      runs = db.runs ++ record run { status = RunStatus.running } ∷ [];
    } in
    let inserted = insert_tasks_total run.id new_ids f.injective ts opened d f.tasks_free in
    let tasks = db.tasks ++ map (task_row run.id new_ids) ts in
    let filled : Database = record opened { tasks = tasks } in
    let (x, made, _) =
      Returns-get (λ _. Unit) (insert_dependencies (dependency_rows new_ids ts) filled)
        (insert_dependencies_total run.id new_ids f.injective (dependency_rows new_ids ts) filled (
          all-Insertable run.id new_ids f.injective tasks (ids ts)
            (λ key k. row-there run.id new_ids f.injective key ts db.tasks k) ts db.dependencies
            (Within-refl (ids ts)) d (own-all (ids ts) ts known own) f.pairs_free)) in
    rw (f.run_free, inserted, made) refl
