-- ===== src/Scheduler/Queue/Levels.antt =====
-- The memo that `rank` fills: each entry is a duration plus the best of the successors' entries.
pub mod Paths
pub mod Total
pub mod Valid
use firstgreen.Prelude.{
  ℕ, zero, suc, ◌+◌, ◌≤◌, max, String, Bool, true, false, not, ◌&&◌, ◌||◌, ◌≡◌, ◌⊎◌, refl, sym, ◌∙◌,
  subst, subst₂, ap, List, [], ◌∷◌, map, ◌==◌, if◌then◌else◌, arith, eq_iff, eq_refl, Bool-cases,
  inl, inr, All, All-imp, all, length, mem, sort, text_leb,
}
use firstgreen.Prelude.Result.{
  Result, ok, err, value_error, raise_if, ◌>>=◌, ◌>>◌, >>=-eq-ok, raise_if-eq-ok,
}
use firstgreen.Config.Models.{TaskConfig}
use firstgreen.Config.Dag.{ids}
use firstgreen.Scheduler.Queue.{
  Memo, has, level_at, successors, duration_of, best_rank, rank, rank_each, bottom_levels,
}

-- The greatest entry of some nodes, 0 for none.
abbrev pub best : Memo → List String → ℕ
best m [] = 0
best m (s ∷ ss) = max (level_at m s) (best m ss)

module _ (tasks : List TaskConfig) where
  abbrev pub next_of : String → List String
  next_of = successors tasks

  abbrev pub Levels : Memo → Type 0
  Levels [] = Unit
  Levels ((t, v) ∷ m) =
      (has t m ≡ false)
      × (v ≡ duration_of tasks t + best m (next_of t))
      × All (λ s. has s m ≡ true) (next_of t)
      × Levels m

  -- The later memo keeps the entries of the earlier one.
  abbrev Extends : Memo → Memo → Type 0
  Extends m m' = (k : String) → has k m ≡ true → (has k m' ≡ true) × (level_at m' k ≡ level_at m k)

  abbrev Avoids : List String → Memo → Type 0
  Avoids visiting m = All (λ y. has y m ≡ false) visiting

  record IsRanked (visiting nodes : List String) (m : Memo) (v : ℕ) (m' : Memo) : Type 0 where
    levels : Levels m'
    avoids : Avoids visiting m'
    extends : Extends m m'
    present : All (λ s. has s m' ≡ true) nodes
    value : v ≡ best m' nodes

  Extends-trans : (a b c : Memo) → Extends a b → Extends b c → Extends a c
  Extends-trans a b c h k x p = let (q, e) = h x p in ((k x q).0, (k x q).1 ∙ e)

  abbrev GoodRank : List String → (String → Memo → Result (ℕ × Memo)) → Type 0
  GoodRank visiting f =
      (x : String) (m : Memo) (v : ℕ) (m' : Memo)
      → Levels m
      → Avoids visiting m
      → f x m ≡ ok (v, m')
      → IsRanked visiting (x ∷ []) m v m'

  moved :
      (visiting nodes : List String) (m : Memo) (v : ℕ) (m₁ : Memo) (w : ℕ) (m₂ : Memo)
      → ◌≡◌ {A = Result (ℕ × Memo)} (ok (v, m₁)) (ok (w, m₂))
      → IsRanked visiting nodes m v m₁
      → IsRanked visiting nodes m w m₂
  moved visiting nodes m v m₁ w m₂ e r =
      let ev : v ≡ w = cc in let em : m₁ ≡ m₂ = cc in subst₂ (IsRanked visiting nodes m) ev em r

  best_rank-IsRanked :
      (visiting : List String) (f : String → Memo → Result (ℕ × Memo)) (nodes : List String)
      (m : Memo) (v : ℕ) (m' : Memo)
      → GoodRank visiting f
      → Levels m
      → Avoids visiting m
      → best_rank f nodes m ≡ ok (v, m')
      → IsRanked visiting nodes m v m'
  unfolding best_rank
  best_rank-IsRanked visiting f [] m v m' good l a e =
      let same : m ≡ m' = cc in
      subst (IsRanked visiting [] m v) same
        (record { levels = l; avoids = a; extends = λ k h. (h, refl); present = tt; value = cc })
  best_rank-IsRanked visiting f (x ∷ nodes) m v m' good l a e =
      let ((v₁, m₁), now, later) =
        >>=-eq-ok (f x m) (λ (p : ℕ × Memo). best_rank f nodes p.1 >>= λ q. ok (max p.0 q.0, q.1))
          e in
      let ((v₂, m₂), rest, done) =
        >>=-eq-ok (best_rank f nodes m₁) (λ (q : ℕ × Memo). ok (max v₁ q.0, q.1)) later in
      let r = good x m v₁ m₁ l a now in
      let s = best_rank-IsRanked visiting f nodes m₁ v₂ m₂ good r.levels r.avoids rest in
      let value : max v₁ v₂ ≡ best m₂ (x ∷ nodes) =
        omega (arith, r.value, s.value, (s.extends x r.present.0).1) in
      moved visiting (x ∷ nodes) m (max v₁ v₂) m₂ v m' done (record {
        levels = s.levels;
        avoids = s.avoids;
        extends = Extends-trans m m₁ m₂ r.extends s.extends;
        present = ((s.extends x r.present.0).0, s.present);
        value = value;
      })

  best-fresh :
      (t : String) (v : ℕ) (m : Memo) (nodes : List String)
      → has t m ≡ false
      → All (λ s. has s m ≡ true) nodes
      → best ((t, v) ∷ m) nodes ≡ best m nodes
  best-fresh t v m [] h p = refl
  best-fresh t v m (s ∷ nodes) h p =
      let other : (t == s) ≡ false = elim (Bool-cases (t == s)) [
        | inl e ↦ absurd (absent (subst (λ z. has z m ≡ true) (sym ((eq_iff t s).0 e)) p.0))
        | inr e ↦ e
      ] in
      rw (other, best-fresh t v m nodes h p.1)
    where
      absent : has t m ≡ true → ⊥
      absent e = cc

  Extends-fresh : (t : String) (v : ℕ) (m : Memo) → has t m ≡ false → Extends m ((t, v) ∷ m)
  Extends-fresh t v m h k p = elim (Bool-cases (t == k)) [
    | inl e ↦ absurd (clash (subst (λ z. has z m ≡ true) (sym ((eq_iff t k).0 e)) p))
    | inr e ↦ (rw e p, rw e)
  ]
    where
      clash : has t m ≡ true → ⊥
      clash e = cc

  Avoids-fresh :
      (t : String) (v : ℕ) (m : Memo) (ys : List String)
      → mem t ys ≡ false
      → Avoids ys m
      → Avoids ys ((t, v) ∷ m)
  Avoids-fresh t v m [] n a = tt
  Avoids-fresh t v m (y ∷ ys) n a = (ground (arith, a.0), Avoids-fresh t v m ys (ground arith) a.1)

  rank-IsRanked : (fuel : ℕ) (visiting : List String) → GoodRank visiting (rank tasks fuel visiting)
  unfolding rank
  rank-IsRanked zero visiting x m v m' l a e = absurd (cc)
  rank-IsRanked (suc fuel) visiting x m v m' l a e = elim (Bool-cases (has x m)) [
    | inl old ↦ moved visiting (x ∷ []) m (level_at m x) m v m' (rw old at e) (record {
      levels = l;
      avoids = a;
      extends = λ k h. (h, refl);
      present = (old, tt);
      value = omega arith;
    })
    | inr new ↦ elim (Bool-cases (mem x visiting)) [
      | inl again ↦ absurd (ground arith)
      | inr fresh ↦
          let ((w, m₁), tail, done) =
            >>=-eq-ok (best_rank (rank tasks fuel (x ∷ visiting)) (next_of x) m)
              (λ (t : ℕ × Memo).
                ok (duration_of tasks x + t.0, (x, duration_of tasks x + t.0) ∷ t.1))
              (rw (new, fresh) at e) in
          let r =
            best_rank-IsRanked (x ∷ visiting) (rank tasks fuel (x ∷ visiting)) (next_of x) m w m₁
              (rank-IsRanked fuel (x ∷ visiting)) l (new, a) tail in
          let result = duration_of tasks x + w in
          moved visiting (x ∷ []) m result ((x, result) ∷ m₁) v m' done (record {
            levels = (r.avoids.0, ap (λ z. duration_of tasks x + z) r.value, r.present, r.levels);
            avoids = Avoids-fresh x result m₁ visiting fresh r.avoids.1;
            extends =
                Extends-trans m m₁ ((x, result) ∷ m₁) r.extends
                  (Extends-fresh x result m₁ r.avoids.0);
            present = (rw (eq_refl x), tt);
            value = rw (eq_refl x) (omega arith);
          })
    ]
  ]

  rank_each-Levels :
      (nodes : List String) (m m' : Memo)
      → Levels m
      → rank_each tasks nodes m ≡ ok m'
      → Levels m' × All (λ s. has s m' ≡ true) nodes × Extends m m'
  unfolding rank_each
  rank_each-Levels [] m m' l e =
      let same : m ≡ m' = cc in
      subst (λ z. Levels z × Unit {0} × Extends m z) same (l, tt, (λ k h. (h, refl)))
  rank_each-Levels (x ∷ nodes) m m' l e =
      let ((v, m₁), now, later) =
        >>=-eq-ok (rank tasks (suc (length tasks)) [] x m)
          (λ (r : ℕ × Memo). rank_each tasks nodes r.1) e in
      let r = rank-IsRanked (suc (length tasks)) [] x m v m₁ l tt now in
      let s = rank_each-Levels nodes m₁ m' r.levels later in
      (s.0, ((s.2 x r.present.0).0, s.1), Extends-trans m m₁ m' r.extends s.2)

  -- An entry of a memo of levels is the duration plus the best entry of the successors.
  pub level-eq :
      (m : Memo) (k : String)
      → Levels m
      → has k m ≡ true
      → (level_at m k ≡ duration_of tasks k + best m (next_of k))
        × All (λ s. has s m ≡ true) (next_of k)
  level-eq [] k l h = absurd (cc)
  level-eq ((t, v) ∷ m) k l h = elim (Bool-cases (t == k)) [
    | inl e ↦
        subst
          (λ z.
            (level_at ((t, v) ∷ m) z ≡ duration_of tasks z + best ((t, v) ∷ m) (next_of z))
            × All (λ s. has s ((t, v) ∷ m) ≡ true) (next_of z))
          ((eq_iff t k).0 e) (rw (eq_refl t) (l.1 ∙ lifted t l.2), grown (next_of t) l.2)
    | inr e ↦
        let (a, b) = level-eq m k l.3 (ground arith) in (rw e (a ∙ lifted k b), grown (next_of k) b)
  ]
    where
      grown :
          (nodes : List String)
          → All (λ s. has s m ≡ true) nodes
          → All (λ s. has s ((t, v) ∷ m) ≡ true) nodes
      grown nodes =
          All-imp (λ s. has s m ≡ true) (λ s. has s ((t, v) ∷ m) ≡ true) nodes
            (λ s p. (Extends-fresh t v m l.0 s p).0)

      lifted :
          (j : String)
          → All (λ s. has s m ≡ true) (next_of j)
          → duration_of tasks j + best m (next_of j)
            ≡ duration_of tasks j + best ((t, v) ∷ m) (next_of j)
      lifted j p = ap (λ z. duration_of tasks j + z) (sym (best-fresh t v m (next_of j) l.0 p))

  -- Every task gets a level, and each level is the task's duration plus the greatest level among
  -- the tasks that depend on it.
  pub bottom_levels-Levels :
      {m : Memo}
      → bottom_levels tasks ≡ ok m
      → Levels m × All (λ s. has s m ≡ true) (sort text_leb (ids tasks))
  unfolding bottom_levels
  bottom_levels-Levels {m} e =
      let known = all (λ (t : TaskConfig). all (λ d. mem d (ids tasks)) t.dependencies) tasks in
      let sorted_ids = sort text_leb (ids tasks) in
      let (_, loop) = raise_if-eq-ok (not known) value_error (rank_each tasks sorted_ids []) e in
      let done = rank_each-Levels sorted_ids [] m tt loop in (done.0, done.1)
