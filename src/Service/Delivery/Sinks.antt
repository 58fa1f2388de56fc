-- ===== src/Service/Delivery/Sinks.antt =====
-- src/firstgreen/service.py, `_delivery_snapshots`: the snapshots that a delivery starts from are winners
-- of the sinks.
use firstgreen.Prelude.{
  String, Bool, true, false, not, ◌&&◌, ◌≡◌, List, [], ◌∷◌, ◌==◌, arith, All, All-imp, All-append,
  All-sort, Bool-cases, inl, inr, any, keep, length, mem, sort, nat_eq, eq_iff, eq_refl, subst, ◌∙◌,
  length-sort,
}
use firstgreen.Prelude.Result.{Result, ok, workspace_safety_error, >>=-eq-ok, raise_if-eq-ok}
use firstgreen.Config.Models.{Manifest}
use firstgreen.Db.Tables.{TaskRow, AttemptRow, Database}
use firstgreen.Service.Composition.{
  DependencySnapshot, sinks, is_winner_of, winners_of, all_winners, by_key, delivery_snapshots,
}
use firstgreen.Service.Delivery.{Workspace, same_base}

-- An attempt that has won the task stands on the snapshot's base.
abbrev pub is_won_by : DependencySnapshot → List AttemptRow → TaskRow → Bool
is_won_by s attempts t =
    t.task_key == s.task_key
    && any (λ (a : AttemptRow). is_winner_of t a && a.base_sha == s.base_sha) attempts

abbrev pub is_sink_of : String → Manifest → TaskRow → Bool
is_sink_of run_id m t = t.run_id == run_id && mem t.task_key (sinks m)

-- The snapshot is of a winner of the run's task for a sink.
abbrev pub IsSinkWinner : String → Manifest → Database → DependencySnapshot → Type 0
IsSinkWinner run_id m db s =
    any (λ (t : TaskRow). is_sink_of run_id m t && is_won_by s db.attempts t) db.tasks ≡ true

one-won :
    (t : TaskRow) (attempts : List AttemptRow)
    → All (λ s. is_won_by s attempts t ≡ true) (winners_of t attempts)
one-won t [] = tt
one-won t (a ∷ attempts) =
    let more =
      All-imp (λ s. is_won_by s attempts t ≡ true) (λ s. is_won_by s (a ∷ attempts) t ≡ true)
        (winners_of t attempts) (λ s h. ground arith) (one-won t attempts) in
    elim (Bool-cases (is_winner_of t a)) [
      | inl e ↦ rw e (ground (arith, eq_refl t.task_key, eq_refl a.base_sha), (rw e at more))
      | inr e ↦ rw e (rw e at more)
    ]

-- One of the tasks that `q` selects has the snapshot's winner.
abbrev IsWonIn : (TaskRow → Bool) → List TaskRow → List AttemptRow → DependencySnapshot → Type 0
IsWonIn q tasks attempts s = any (λ (t : TaskRow). q t && is_won_by s attempts t) tasks ≡ true

all-won :
    (q : TaskRow → Bool) (tasks : List TaskRow) (attempts : List AttemptRow)
    → All (IsWonIn q tasks attempts) (all_winners (keep q tasks) attempts)
all-won q [] attempts = tt
all-won q (t ∷ tasks) attempts =
    let rest = all_winners (keep q tasks) attempts in
    let more =
      All-imp (IsWonIn q tasks attempts) (IsWonIn q (t ∷ tasks) attempts) rest (λ s h. ground arith)
        (all-won q tasks attempts) in
    elim (Bool-cases (q t)) [
      | inl e ↦
          let own =
            All-imp (λ s. is_won_by s attempts t ≡ true) (IsWonIn q (t ∷ tasks) attempts)
              (winners_of t attempts) (λ s h. ground arith) (one-won t attempts) in
          rw e (All-append (IsWonIn q (t ∷ tasks) attempts) (winners_of t attempts) rest own more)
      | inr e ↦ rw e more
    ]

pub snapshots-won :
    (run_id : String) (m : Manifest) (db : Database) {snapshots : List DependencySnapshot}
    → delivery_snapshots run_id m db ≡ ok snapshots
    → (length snapshots ≡ length (sinks m)) × All (IsSinkWinner run_id m db) snapshots
unfolding delivery_snapshots
snapshots-won run_id m db {snapshots} e =
    let rows = all_winners (keep (is_sink_of run_id m) db.tasks) db.attempts in
    let (counted, sorted) =
      raise_if-eq-ok (not (nat_eq (length rows) (length (sinks m)))) workspace_safety_error
        (ok (sort by_key rows)) e in
    let same : sort by_key rows ≡ snapshots = cc in
    subst
      (λ (l : List DependencySnapshot).
        (length l ≡ length (sinks m)) × All (IsSinkWinner run_id m db) l)
      same
      (
        length-sort by_key rows ∙ ground arith,
        All-sort by_key (IsSinkWinner run_id m db) rows
            (all-won (is_sink_of run_id m) db.tasks db.attempts),
      )

based :
    (w : Workspace) (snapshots : List DependencySnapshot)
    → any (λ (s : DependencySnapshot). not (s.base_sha == w.base_sha)) snapshots ≡ false
    → All (λ (s : DependencySnapshot). s.base_sha ≡ w.base_sha) snapshots
based w [] h = tt
based w (s ∷ snapshots) h =
    ((eq_iff s.base_sha w.base_sha).0 (ground arith), based w snapshots (ground arith))

-- The check on the bases, read back from its success.
pub same_base-ok :
    (w : Workspace) (found : Result (List DependencySnapshot)) {snapshots : List DependencySnapshot}
    → same_base w found ≡ ok snapshots
    → (found ≡ ok snapshots) × All (λ (s : DependencySnapshot). s.base_sha ≡ w.base_sha) snapshots
same_base-ok w found {snapshots} e =
    let (l, made, rest) = >>=-eq-ok found _ e in
    let (none, last) =
      raise_if-eq-ok (any (λ (s : DependencySnapshot). not (s.base_sha == w.base_sha)) l)
        workspace_safety_error (ok l) rest in
    let same : l ≡ snapshots = cc in
    (
      made ∙ last,
      subst (All (λ (s : DependencySnapshot). s.base_sha ≡ w.base_sha)) same (based w l none),
    )
