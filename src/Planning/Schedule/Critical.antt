-- ===== src/Planning/Schedule/Critical.antt =====
-- src/firstgreen/planning/parallelism.py: the critical path is a chain of dependencies that takes the
-- span, and no chain takes longer.
use firstgreen.Prelude.{
  ℕ, zero, suc, ◌+◌, ◌≤◌, String, true, false, ◌≡◌, refl, sym, ◌∙◌, subst, Option, none, some, List,
  [], ◌∷◌, ◌==◌, arith, ap, eq_iff, Bool-cases, Option-cases, inl, inr, All-mem, Within, All-imp,
  length, mem,
}
use firstgreen.Planning.Models.{PlanTask}
use firstgreen.Planning.Parallelism.{deps_of, duration_of}
use firstgreen.Planning.Schedule.{
  Entry, Timeline, is_done, finish_of, parent_of, latest, start_after, keys, path_back,
  critical_path,
}
use firstgreen.Planning.Schedule.Placed.{AllDone, IsPlaced, done-old}
use firstgreen.Planning.Schedule.Chains.{
  latest-IsLatest, latest-none, finish-cons, done-split, done-other, IsChain, total, placed-Settled,
}

mem-nothing : (d : String) → mem d [] ≡ true → ⊥
mem-nothing d m = cc

done-mem : (k : String) (es : Timeline) → is_done k es ≡ true → mem k (keys es) ≡ true
unfolding is_done
done-mem k [] h = cc
done-mem k (e ∷ es) h = ground (arith, done-mem k es, eq_iff k (e.task_id), eq_iff (e.task_id) k)

done-of_mem : (k : String) (es : Timeline) → mem k (keys es) ≡ true → is_done k es ≡ true
unfolding is_done
done-of_mem k [] h = cc
done-of_mem k (e ∷ es) h =
    ground (arith, done-of_mem k es, eq_iff k (e.task_id), eq_iff (e.task_id) k)

module _ (tasks : List PlanTask) where
  -- A dependency finishes before its dependent starts.
  pub dependency-le :
      (d k : String) (es : Timeline)
      → IsPlaced tasks es
      → is_done k es ≡ true
      → mem d (deps_of tasks k) ≡ true
      → finish_of es d + duration_of tasks k ≤ finish_of es k
  dependency-le d k es p h m =
      let s = placed-Settled tasks k es p h in
      elim (Option-cases (latest es (deps_of tasks k))) [
        | inl none_left ↦ absurd (
            mem-nothing d
              (subst (λ l. mem d l ≡ true) (latest-none es (deps_of tasks k) none_left) m))
        | inr (b, found) ↦
            let below =
              All-mem (λ j. finish_of es j ≤ finish_of es b) d (deps_of tasks k) m
                (latest-IsLatest es (deps_of tasks k) b found).1 in
            let at : finish_of es k ≡ finish_of es b + duration_of tasks k =
              s.finish ∙ ap (λ o. start_after es o + duration_of tasks k) found in
            omega (arith, below, at)
      ]

  -- What comes before a task of a chain fits before its finish.
  chain-le :
      (bound before : ℕ) (x : String) (xs : List String) (es : Timeline)
      → IsPlaced tasks es
      → AllDone tasks (x ∷ xs) es
      → ((k : String) → is_done k es ≡ true → finish_of es k ≤ bound)
      → IsChain tasks (x ∷ xs)
      → before + duration_of tasks x ≤ finish_of es x
      → before + total tasks (x ∷ xs) ≤ bound
  chain-le bound before x [] es p h top c le = omega (arith, top x h.0, le)
  chain-le bound before x (y ∷ ys) es p h top c le =
      let step = dependency-le x y es p h.1.0 c.0 in
      let rest =
        chain-le bound (before + duration_of tasks x) y ys es p h.1 top c.1
          (omega (arith, step, le)) in
      omega (arith, rest)

  path_back-none :
      (fuel : ℕ) (es : Timeline) (path : List String) → path_back fuel es none path ≡ path
  unfolding path_back
  path_back-none zero es path = refl
  path_back-none (suc fuel) es path = refl

  path_back-on :
      (fuel : ℕ) (e : Entry) (es : Timeline) (o : Option String) (path : List String)
      → ((b : String)
          → o ≡ some b
          → path_back fuel (e ∷ es) (some b) path ≡ path_back fuel es (some b) path)
      → path_back fuel (e ∷ es) o path ≡ path_back fuel es o path
  path_back-on fuel e es none path f =
      path_back-none fuel (e ∷ es) path ∙ sym (path_back-none fuel es path)
  path_back-on fuel e es (some b) path f = f b refl

  -- The dependency that a key waits for is placed before it.
  parent-done :
      (k b : String) (es : Timeline)
      → IsPlaced tasks es
      → is_done k es ≡ true
      → parent_of es k ≡ some b
      → (mem b (deps_of tasks k) ≡ true) × (is_done b es ≡ true)
  parent-done k b es p h found =
      let s = placed-Settled tasks k es p h in
      let m = (latest-IsLatest es (deps_of tasks k) b (sym s.parent ∙ found)).0 in
      (m, All-mem (λ j. is_done j es ≡ true) b (deps_of tasks k) m s.deps_done)

  path_back-cons :
      (fuel : ℕ) (e : Entry) (es : Timeline) (k : String) (path : List String)
      → IsPlaced tasks (e ∷ es)
      → is_done k es ≡ true
      → path_back fuel (e ∷ es) (some k) path ≡ path_back fuel es (some k) path
  unfolding path_back parent_of
  path_back-cons zero e es k path p h = refl
  path_back-cons (suc fuel) e es k path p h =
      let same : parent_of (e ∷ es) k ≡ parent_of es k = rw (done-other k e es p.0 h) in
      ap (λ c. path_back fuel (e ∷ es) c (k ∷ path)) same
      ∙ path_back-on fuel e es (parent_of es k) (k ∷ path)
          (λ b found. path_back-cons fuel e es b (k ∷ path) p (parent-done k b es p.3 h found).1)

  -- From a placed key the walk ends, and what it finds takes until that key's finish.
  nothing_done : (k : String) → is_done k [] ≡ true → ⊥
  unfolding is_done
  nothing_done k h = cc

  record IsWalked (k : String) (es : Timeline) (path result : List String) : Type 0 where
    chain : IsChain tasks result
    length_of : total tasks result ≡ finish_of es k + total tasks path
    members :
        (known : List String)
        → ((j : String) → is_done j es ≡ true → mem j known ≡ true)
        → Within path known
        → Within result known

  path_back-IsWalked :
      (fuel : ℕ) (es : Timeline) (k : String) (path : List String)
      → IsPlaced tasks es
      → is_done k es ≡ true
      → length es ≤ fuel
      → IsChain tasks (k ∷ path)
      → IsWalked k es path (path_back fuel es (some k) path)
  unfolding path_back
  path_back-IsWalked fuel [] k path p h le c = absurd (nothing_done k h)
  path_back-IsWalked zero (e ∷ es) k path p h le c = absurd (omega arith)
  path_back-IsWalked (suc fuel) (e ∷ es) k path p h le c = elim (Bool-cases (e.task_id == k)) [
    | inl same ↦ elim (Option-cases (parent_of (e ∷ es) k)) [
      | inl stop ↦
          let s = placed-Settled tasks k (e ∷ es) p h in
          let at : finish_of (e ∷ es) k ≡ duration_of tasks k =
            s.finish
            ∙ ap (λ o. start_after (e ∷ es) o + duration_of tasks k) (sym s.parent ∙ stop)
            ∙ omega arith in
          let ends : path_back (suc fuel) (e ∷ es) (some k) path ≡ k ∷ path =
            ap (λ o. path_back fuel (e ∷ es) o (k ∷ path)) stop
            ∙ path_back-none fuel (e ∷ es) (k ∷ path) in
          subst (IsWalked k (e ∷ es) path) (sym ends)
            (record { chain = c; length_of = omega (arith, at); members = λ P f a. (f k h, a) })
      | inr (b, found) ↦
          let s = placed-Settled tasks k (e ∷ es) p h in
          let m = (parent-done k b (e ∷ es) p h found).0 in
          let old =
            All-mem (λ j. is_done j es ≡ true) b (deps_of tasks k) m
              (subst (λ z. AllDone tasks (deps_of tasks z) es) ((eq_iff (e.task_id) k).0 same)
                p.1) in
          let at : finish_of (e ∷ es) k ≡ finish_of (e ∷ es) b + duration_of tasks k =
            s.finish
            ∙ ap (λ o. start_after (e ∷ es) o + duration_of tasks k) (sym s.parent ∙ found) in
          let w = path_back-IsWalked fuel es b (k ∷ path) p.3 old (omega (arith, le)) (m, c) in
          let goes : path_back (suc fuel) (e ∷ es) (some k) path
              ≡ path_back fuel es (some b) (k ∷ path) =
            ap (λ o. path_back fuel (e ∷ es) o (k ∷ path)) found
            ∙ path_back-cons fuel e es b (k ∷ path) p old in
          subst (IsWalked k (e ∷ es) path) (sym goes) (record {
            chain = w.chain;
            length_of = omega (arith, w.length_of, at, finish-cons b e es p.0 old);
            members = λ P f a. w.members P (λ j d. f j (done-old tasks j e es d)) (f k h, a);
          })
    ]
    | inr other ↦
        let old = done-split k e es h other in
        let w = path_back-IsWalked (suc fuel) es k path p.3 old (omega (arith, le)) c in
        subst (IsWalked k (e ∷ es) path) (sym (path_back-cons (suc fuel) e es k path p old))
          (record {
            chain = w.chain;
            length_of = omega (arith, w.length_of, finish-cons k e es p.0 old);
            members = λ P f a. w.members P (λ j d. f j (done-old tasks j e es d)) a;
          })
  ]

  module _ (known : List String) (es : Timeline) (placed : IsPlaced tasks es)
      (done : AllDone tasks known es)
      (only : (k : String) → mem k known ≡ false → is_done k es ≡ false) where
    -- The finish of the sink.
    abbrev pub end : ℕ
    end = start_after es (latest es (keys es))

    done-known : (k : String) → is_done k es ≡ true → mem k known ≡ true
    done-known k h = elim (Bool-cases (mem k known)) [
      | inl m ↦ m
      | inr n ↦ absurd (clash (only k n))
    ]
      where
        clash : is_done k es ≡ false → ⊥
        clash n = cc

    finish-le-end : (k : String) → is_done k es ≡ true → finish_of es k ≤ end
    finish-le-end k h = elim (Option-cases (latest es (keys es))) [
      | inl none_left ↦ absurd (
          mem-nothing k
            (subst (λ l. mem k l ≡ true) (latest-none es (keys es) none_left) (done-mem k es h)))
      | inr (b, found) ↦
          let below =
            All-mem (λ j. finish_of es j ≤ finish_of es b) k (keys es) (done-mem k es h)
              (latest-IsLatest es (keys es) b found).1 in
          rw found below
    ]

    pub chains_fit :
        (x : String) (xs : List String)
        → Within (x ∷ xs) known
        → IsChain tasks (x ∷ xs)
        → total tasks (x ∷ xs) ≤ end
    chains_fit x xs m c =
        let dones =
          All-imp (λ k. mem k known ≡ true) (λ k. is_done k es ≡ true) (x ∷ xs)
            (λ k i. All-mem (λ j. is_done j es ≡ true) k known i done) m in
        let s = placed-Settled tasks x es placed dones.0 in
        omega (arith, chain-le end 0 x xs es placed dones finish-le-end c (omega (arith, s.finish)))

    pub critical-IsWalked :
        IsChain tasks (critical_path es)
        × (total tasks (critical_path es) ≡ end)
        × Within (critical_path es) known
    unfolding critical_path
    critical-IsWalked = elim (Option-cases (latest es (keys es))) [
      | inl none_left ↦
          let empty : critical_path es ≡ [] =
            ap (λ o. path_back (length es) es o []) none_left ∙ path_back-none (length es) es [] in
          rw (empty, none_left) (tt, refl, tt)
      | inr (b, found) ↦
          let first = done-of_mem b es (latest-IsLatest es (keys es) b found).0 in
          let w = path_back-IsWalked (length es) es b [] placed first (omega arith) tt in
          let same : critical_path es ≡ path_back (length es) es (some b) [] =
            ap (λ o. path_back (length es) es o []) found in
          rw (same, found) (w.chain, omega (arith, w.length_of), w.members known done-known tt)
    ]
