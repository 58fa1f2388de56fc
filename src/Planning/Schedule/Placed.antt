-- ===== src/Planning/Schedule/Placed.antt =====
-- What the rounds of src/firstgreen/planning/parallelism.py leave behind: each task is placed once,
-- after the dependency that finishes last.
use firstgreen.Prelude.{
  ℕ, zero, suc, String, true, false, not, ◌≡◌, refl, sym, subst, List, [], ◌∷◌, ◌==◌, arith, eq_iff,
  eq_refl, Bool-cases, inl, inr, All, All-imp, all, keep, length, mem, distinct, text_leb, All-sort,
  All-keep, distinct-sort, mem-sort, mem-keep, distinct-keep, All-mem, All-of_mem, ◌∙◌, ◌&&◌,
}
use firstgreen.Prelude.Result.{ok}
use firstgreen.Planning.Models.{PlanTask}
use firstgreen.Planning.Parallelism.{plan_ids, deps_of}
use firstgreen.Planning.Schedule.{
  Entry, Timeline, is_done, entry, place_each, ready_keys, rounds, timeline,
}

module _ (tasks : List PlanTask) where
  -- Every key of the list is placed.
  abbrev pub AllDone : List String → Timeline → Type 0
  AllDone ks es = All (λ k. is_done k es ≡ true) ks

  -- Each entry is new, stands after its dependencies, and is what the code computes from them.
  abbrev pub IsPlaced : Timeline → Type 0
  IsPlaced [] = Unit
  IsPlaced (e ∷ es) =
      (is_done (e.task_id) es ≡ false)
      × AllDone (deps_of tasks (e.task_id)) es
      × (e ≡ entry tasks (e.task_id) es)
      × IsPlaced es

  Fresh : List String → Timeline → Type 0
  Fresh ks es = All (λ k. is_done k es ≡ false) ks

  pub AllDone-cons :
      (e : Entry) (es : Timeline) (ks : List String) → AllDone ks es → AllDone ks (e ∷ es)
  unfolding is_done
  AllDone-cons e es [] h = tt
  AllDone-cons e es (k ∷ ks) h = (ground (arith, h.0), AllDone-cons e es ks h.1)

  Fresh-cons :
      (e : Entry) (es : Timeline) (ks : List String)
      → mem (e.task_id) ks ≡ false
      → Fresh ks es
      → Fresh ks (e ∷ es)
  unfolding is_done Fresh
  Fresh-cons e es [] n h = tt
  Fresh-cons e es (k ∷ ks) n h = (ground (arith, h.0), Fresh-cons e es ks (ground arith) h.1)

  done-new : (e : Entry) (es : Timeline) → is_done (e.task_id) (e ∷ es) ≡ true
  unfolding is_done
  done-new e es = rw (eq_refl (e.task_id))

  pub done-old :
      (k : String) (e : Entry) (es : Timeline) → is_done k es ≡ true → is_done k (e ∷ es) ≡ true
  unfolding is_done
  done-old k e es h = ground (arith, h)

  undone-cons :
      (k : String) (e : Entry) (es : Timeline)
      → (k == e.task_id) ≡ false
      → is_done k es ≡ false
      → is_done k (e ∷ es) ≡ false
  unfolding is_done
  undone-cons k e es n h = ground (arith, h, eq_iff k (e.task_id), eq_iff (e.task_id) k)

  record Grown (ks : List String) (es es' : Timeline) : Type 0 where
    placed : IsPlaced es'
    done : AllDone ks es'
    kept : (k : String) → is_done k es ≡ true → is_done k es' ≡ true
    others : (k : String) → mem k ks ≡ false → is_done k es ≡ false → is_done k es' ≡ false

  Grown-nil : (es : Timeline) → IsPlaced es → Grown [] es es
  Grown-nil es p = record { placed = p; done = tt; kept = λ j x. x; others = λ j n x. x }

  place_each-Grown :
      (ks : List String) (es : Timeline)
      → IsPlaced es
      → distinct ks ≡ true
      → Fresh ks es
      → All (λ k. AllDone (deps_of tasks k) es) ks
      → Grown ks es (place_each tasks ks es)
  unfolding place_each Fresh
  place_each-Grown [] es p d f h = Grown-nil es p
  place_each-Grown (k ∷ ks) es p d f h =
      let next = entry tasks k es in
      let deps =
        All-imp (λ j. AllDone (deps_of tasks j) es) (λ j. AllDone (deps_of tasks j) (next ∷ es)) ks
          (λ j. AllDone-cons next es (deps_of tasks j)) h.1 in
      let g =
        place_each-Grown ks (next ∷ es) (f.0, h.0, refl, p) (ground arith)
          (Fresh-cons next es ks (ground arith) f.1) deps in
      record {
        placed = g.placed;
        done = (g.kept k (done-new next es), g.done);
        kept = λ j e. g.kept j (done-old j next es e);
        others = λ j n e. g.others j (ground arith) (undone-cons j next es (ground arith) e);
      }

  ready-deps :
      (es : Timeline) (ks : List String)
      → All
          (λ k. AllDone (deps_of tasks k) es)
          (keep (λ k. all (λ d. is_done d es) (deps_of tasks k)) ks)
  ready-deps es [] = tt
  ready-deps es (k ∷ ks) = elim (Bool-cases (all (λ d. is_done d es) (deps_of tasks k))) [
    | inl h ↦ rw h (all-All (deps_of tasks k) h, ready-deps es ks)
    | inr h ↦ rw h (ready-deps es ks)
  ]
    where
      all-All : (ds : List String) → all (λ d. is_done d es) ds ≡ true → AllDone ds es
      all-All [] h = tt
      all-All (d ∷ ds) h = (ground arith, all-All ds (ground arith))

  rounds-Grown :
      (fuel : ℕ) (remaining : List String) (es es' : Timeline)
      → IsPlaced es
      → distinct remaining ≡ true
      → Fresh remaining es
      → rounds tasks fuel remaining es ≡ ok es'
      → Grown remaining es es'
  unfolding rounds Fresh
  rounds-Grown zero [] es es' p d f e = subst (Grown [] es) (cc) (Grown-nil es p)
  rounds-Grown (suc fuel) [] es es' p d f e = subst (Grown [] es) (cc) (Grown-nil es p)
  rounds-Grown zero (k ∷ ks) es es' p d f e = absurd (cc)
  rounds-Grown (suc fuel) (k ∷ ks) es es' p d f e =
      let all_left = k ∷ ks in
      let can = λ (j : String). all (λ d. is_done d es) (deps_of tasks j) in
      let ready = ready_keys tasks all_left es in
      let rest = keep (λ j. not (mem j ready)) all_left in
      let mid = place_each tasks ready es in
      let e' : rounds tasks fuel rest mid ≡ ok es' = ground arith in
      let d_keep : distinct (keep can all_left) ≡ true = distinct-keep can all_left d in
      let fresh_ready =
        All-sort text_leb (λ j. is_done j es ≡ false) (keep can all_left)
          (All-keep (λ j. is_done j es ≡ false) can all_left f) in
      let deps_ready =
        All-sort text_leb (λ j. AllDone (deps_of tasks j) es) (keep can all_left)
          (ready-deps es all_left) in
      let g =
        place_each-Grown ready es p (distinct-sort text_leb (keep can all_left) ∙ d_keep)
          fresh_ready deps_ready in
      let fresh_rest =
        All-of_mem (λ j. is_done j mid ≡ false) rest
          (λ j m.
            let both : (mem j all_left && not (mem j ready)) ≡ true =
              sym (mem-keep (λ i. not (mem i ready)) j all_left) ∙ m in
            g.others j (ground arith)
              (All-mem (λ i. is_done i es ≡ false) j all_left (ground arith) f)) in
      let next =
        rounds-Grown fuel rest mid es' g.placed (distinct-keep (λ j. not (mem j ready)) all_left d)
          fresh_rest e' in
      record {
        placed = next.placed;
        done =
            All-of_mem (λ j. is_done j es' ≡ true) all_left
              (λ j m. elim (Bool-cases (mem j ready)) [
                | inl r ↦ next.kept j (All-mem (λ i. is_done i mid ≡ true) j ready r g.done)
                | inr n ↦
                    All-mem (λ i. is_done i es' ≡ true) j rest
                      (mem-keep (λ i. not (mem i ready)) j all_left ∙ (ground arith)) next.done
              ]);
        kept = λ j x. next.kept j (g.kept j x);
        others = λ j n x.
            next.others j (mem-keep (λ i. not (mem i ready)) j all_left ∙ (ground arith)) (
              g.others j
                (mem-sort text_leb j (keep can all_left) ∙ mem-keep can j all_left ∙ (ground arith))
                x);
      }

  -- Every task is placed, and nothing else.
  pub timeline-IsPlaced :
      {es : Timeline}
      → distinct (plan_ids tasks) ≡ true
      → timeline tasks ≡ ok es
      → IsPlaced es
        × AllDone (plan_ids tasks) es
        × ((k : String) → mem k (plan_ids tasks) ≡ false → is_done k es ≡ false)
  unfolding timeline Fresh is_done
  timeline-IsPlaced {es} d e =
      let g =
        rounds-Grown (length tasks) (plan_ids tasks) [] es tt d
          (All-of_mem (λ k. is_done k [] ≡ false) (plan_ids tasks) (λ k m. refl)) e in
      (g.placed, g.done, λ k n. g.others k n refl)
