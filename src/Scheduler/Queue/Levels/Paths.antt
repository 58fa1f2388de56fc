-- ===== src/Scheduler/Queue/Levels/Paths.antt =====
-- A task's level is the greatest total duration of a chain of tasks that begins with it, each of
-- which depends on the one before.
use firstgreen.Prelude.{
  ℕ, ◌+◌, ◌≤◌, String, Bool, true, false, ◌&&◌, ◌||◌, ◌≡◌, sym, ◌∙◌, mem-append, ◌⊎◌, refl, subst,
  leb, ◌==◌, List, [], ◌∷◌, arith, Bool-cases, inl, inr, All-mem, mem, eq_iff, eq_refl,
}
use firstgreen.Prelude.Result.{ok}
use firstgreen.Config.Models.{TaskConfig}
use firstgreen.Scheduler.Queue.{
  Memo, has, level_at, mentions, successors, duration_of, bottom_levels,
}
use firstgreen.Scheduler.Queue.Levels.{best, Levels, level-eq, bottom_levels-Levels}

-- A task of the list has the id `y`, and names `x` among its dependencies.
unfoldable pub needs : List TaskConfig → String → String → Bool
needs [] y x = false
needs (t ∷ ts) y x = t.id == y && mem x t.dependencies || needs ts y x

mem-mentions : (x y t : String) (ds : List String) → mem y (mentions x ds t) ≡ (t == y && mem x ds)
unfolding mentions
mem-mentions x y t [] = ground arith
mem-mentions x y t (d ∷ ds) =
    ground (arith, mem-mentions x y t ds, eq_iff d x, eq_iff x d, eq_iff y t, eq_iff t y)

-- The successors of a task are the tasks that name it among their dependencies.
mem-successors : (x y : String) (ts : List TaskConfig) → mem y (successors ts x) ≡ needs ts y x
unfolding successors needs
mem-successors x y [] = refl
mem-successors x y (t ∷ ts) = ground (
  arith,
  mem-append y (mentions x t.dependencies t.id) (successors ts x),
  mem-mentions x y t.id t.dependencies,
  mem-successors x y ts,
)

module _ (tasks : List TaskConfig) where
  -- The chain goes on from `x` through the list's tasks, each of which depends on the one before.
  abbrev pub IsChain : String → List String → Type 0
  IsChain x [] = Unit
  IsChain x (y ∷ ys) = (needs tasks y x ≡ true) × IsChain y ys

  abbrev pub total : String → List String → ℕ
  total x [] = duration_of tasks x
  total x (y ∷ ys) = duration_of tasks x + total y ys

  best-ge :
      (m : Memo) (y : String) (nodes : List String)
      → mem y nodes ≡ true
      → level_at m y ≤ best m nodes
  best-ge m y [] h = absurd (cc)
  best-ge m y (x ∷ nodes) h = ground (arith, best-ge m y nodes, eq_iff y x)

  total-le :
      (m : Memo) (x : String) (ys : List String)
      → Levels tasks m
      → has x m ≡ true
      → IsChain x ys
      → total x ys ≤ level_at m x
  total-le m x [] l h c = omega (arith, (level-eq tasks m x l h).0)
  total-le m x (y ∷ ys) l h c =
      let (e, p) = level-eq tasks m x l h in
      let follows : mem y (successors tasks x) ≡ true = mem-successors x y tasks ∙ c.0 in
      let y_has = All-mem (λ s. has s m ≡ true) y (successors tasks x) follows p in
      omega (arith, e, total-le m y ys l y_has c.1, best-ge m y (successors tasks x) follows)

  -- With durations in whole milliseconds, no chain of tasks, each of which names the one before among
  -- its dependencies, takes longer than the level of the task that it begins with.
  pub chain-le-level :
      (x : String) (ys : List String) {m : Memo}
      → bottom_levels tasks ≡ ok m
      → has x m ≡ true
      → IsChain x ys
      → total x ys ≤ level_at m x
  chain-le-level x ys {m} e h c = total-le m x ys (bottom_levels-Levels tasks e).0 h c

  best-choice :
      (m : Memo) (nodes : List String)
      → (nodes ≡ []) ⊎ ((y : String) × (mem y nodes ≡ true) × (level_at m y ≡ best m nodes))
  best-choice m [] = inl refl
  best-choice m (x ∷ []) = inr (x, ground (arith, eq_refl x), omega arith)
  best-choice m (x ∷ z ∷ nodes) = elim (best-choice m (z ∷ nodes)) [
    | inl e ↦ absurd (cc)
    | inr (y, my, ey) ↦ elim (Bool-cases (leb (best m (z ∷ nodes)) (level_at m x))) [
      | inl big ↦ inr (x, ground (arith, eq_refl x), ground arith)
      | inr small ↦ inr (y, ground arith, ground arith)
    ]
  ]

  abbrev Attained : Memo → String → Type 0
  Attained m x = (ys : List String) × IsChain x ys × (total x ys ≡ level_at m x)

  first_chain :
      (t : String) (v : ℕ) (m : Memo)
      → Levels tasks ((t, v) ∷ m)
      → ((y : String) → has y m ≡ true → Attained m y)
      → Attained ((t, v) ∷ m) t
  first_chain t v m l ih = elim (best-choice m (successors tasks t)) [
    | inl e ↦
        let alone : best m (successors tasks t) ≡ 0 = rw e in
        ([], tt, rw (eq_refl t) (omega (arith, l.1, alone)))
    | inr (y, my, ey) ↦
        let (ys, c, s) = ih y (All-mem (λ s. has s m ≡ true) y (successors tasks t) my l.2) in
        (
          y ∷ ys,
          (sym (mem-successors t y tasks) ∙ my, c),
          rw (eq_refl t) (omega (arith, l.1, ey, s)),
        )
  ]

  attained : (m : Memo) (x : String) → Levels tasks m → has x m ≡ true → Attained m x
  attained [] x l h = absurd (cc)
  attained ((t, v) ∷ m) x l h = elim (Bool-cases (t == x)) [
    | inl e ↦
        subst (Attained ((t, v) ∷ m)) ((eq_iff t x).0 e)
          (first_chain t v m l (λ y. attained m y l.3))
    | inr e ↦ let (ys, c, s) = attained m x l.3 (ground arith) in (ys, c, rw e s)
  ]

  -- With durations in whole milliseconds, some chain of tasks, each of which names the one before
  -- among its dependencies, begins with a given task and takes exactly as long as the task's level.
  pub level_attained :
      (x : String) {m : Memo}
      → bottom_levels tasks ≡ ok m
      → has x m ≡ true
      → (ys : List String) × IsChain x ys × (total x ys ≡ level_at m x)
  level_attained x {m} e h = attained m x (bottom_levels-Levels tasks e).0 h
