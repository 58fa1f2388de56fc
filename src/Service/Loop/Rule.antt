-- ===== src/Service/Loop/Rule.antt =====
-- Turns of src/firstgreen/service.py's loop, followed to the end of the run: what a turn leaves
-- unchanged, the rule by induction on the loop, and the state in which a run starts.
use mathlib.Core.List.{append-nil, append_assoc}
use firstgreen.Prelude.{
  String, Bool, ◌++◌, map, sym, ℕ, zero, suc, true, false, ◌≡◌, refl, ◌∙◌, ap, subst, inl, inr,
  List, [], ◌∷◌, arith, Bool-cases, is_empty, length,
}
use firstgreen.Prelude.Result.{ok, >>=-eq-ok}
use firstgreen.Config.Models.{Manifest}
use firstgreen.Scheduler.Concurrency.{ConcurrencyState}
use firstgreen.Scheduler.Concurrency.Bounds.{IsBounded}
use firstgreen.Scheduler.Queue.{RankedTask}
use firstgreen.Service.Admission.{admit}
use firstgreen.Service.Loop.{
  World, LoopState, ended, loop, is_over, start_each, finish_each, initial_state, wait_for_running,
  Turn, broke, goes_on, turn,
}
use firstgreen.Service.Loop.Turns.{WentOn, Broke, View, turn-View}

-- What runs after the start of the selected tasks.
pub running-start_each :
    (ready limit threads position : ℕ) (rs : List RankedTask) (s : LoopState)
    → (start_each ready limit threads position rs s).running
      ≡ s.running ++ map (λ (r : RankedTask). r.task) rs
unfolding start_each
running-start_each ready limit threads position [] s = sym (append-nil s.running)
running-start_each ready limit threads position (r ∷ rs) s =
    running-start_each ready limit threads (suc position) rs _
    ∙ append_assoc s.running (r.task ∷ []) (map (λ (r : RankedTask). r.task) rs)

pub verified-start_each :
    (ready limit threads position : ℕ) (rs : List RankedTask) (s : LoopState)
    → ((start_each ready limit threads position rs s).verified_keys ≡ s.verified_keys)
      × ((start_each ready limit threads position rs s).failed ≡ s.failed)
      × ((start_each ready limit threads position rs s).concurrency ≡ s.concurrency)
unfolding start_each
verified-start_each ready limit threads position [] s = (refl, refl, refl)
verified-start_each ready limit threads position (r ∷ rs) s =
    verified-start_each ready limit threads (suc position) rs _

concurrency-finish_each :
    (done : List (String × Bool)) (s : LoopState) → (finish_each done s).concurrency ≡ s.concurrency
unfolding finish_each
concurrency-finish_each [] s = refl
concurrency-finish_each ((x, true) ∷ done) s = concurrency-finish_each done _
concurrency-finish_each ((x, false) ∷ done) s = concurrency-finish_each done _

concurrency-wait :
    (w : World) (n : ℕ) (s : LoopState) → (wait_for_running w n s).concurrency ≡ s.concurrency
concurrency-wait w n s = elim (Bool-cases (is_empty s.running)) [
  | inl e ↦ rw e refl
  | inr e ↦ rw e (concurrency-finish_each (w.wait n s.running) s)
]

pub concurrency-went_on :
    (m : Manifest) (w : World) (n : ℕ) (s : LoopState) {g : LoopState} (v : WentOn m w n s g)
    → g.concurrency ≡ v.before.concurrency
concurrency-went_on m w n s v =
    ap (λ (l : LoopState). l.concurrency) v.result
    ∙ concurrency-wait w n _
    ∙ (verified-start_each (length v.ranked) v.before.concurrency.current_root v.threads 1
        (admit v.before.concurrency.current_root v.before.running (length v.before.running)
          v.ranked).selected
        v.before).2

-- The concurrency stays bounded, and its upper limit the same.
pub went_on-IsBounded :
    (m : Manifest) (w : World) (n : ℕ) (s : LoopState) {g : LoopState}
    → WentOn m w n s g
    → IsBounded s.concurrency
    → IsBounded g.concurrency × (g.concurrency.max_root ≡ s.concurrency.max_root)
went_on-IsBounded m w n s {g} v b =
    subst (λ (c : ConcurrencyState). IsBounded c × (c.max_root ≡ s.concurrency.max_root))
      (sym (concurrency-went_on m w n s v)) (v.ready.bounded b, v.ready.same_max b)

-- The rule for the loop: what every turn keeps, and what it gives where the loop ends.
module _ (m : Manifest) (w : World) (P Q : LoopState → Type 0)
    (keeps : (n : ℕ) (s g : LoopState) → P s → WentOn m w n s g → P g)
    (over : (s : LoopState) → P s → is_over s ≡ true → Q s)
    (breaks : (n : ℕ) (s b : LoopState) → P s → Broke m w n s b → Q b) where
  after_turn :
      (k n : ℕ) (s : LoopState) (t : Turn) {f : LoopState}
      → View m w n s t
      → elim t [ broke b ↦ ok (ended b) | goes_on g ↦ loop k m w (suc n) g ] ≡ ok (ended f)
      → ((g : LoopState) → loop k m w (suc n) g ≡ ok (ended f) → P g → Q f)
      → P s
      → Q f
  after_turn k n s (broke b) {f} v e ih p = let same : b ≡ f = cc in subst Q same (breaks n s b p v)
  after_turn k n s (goes_on g) {f} v e ih p = ih g e (keeps n s g p v)

  pub loop_rule :
      (fuel n : ℕ) (s : LoopState) {f : LoopState} → loop fuel m w n s ≡ ok (ended f) → P s → Q f
  unfolding loop
  loop_rule zero n s {f} e p = elim (Bool-cases (is_over s)) [
    | inl o ↦ let same : s ≡ f = ground arith in subst Q same (over s p o)
    | inr c ↦ absurd (ground arith)
  ]
  loop_rule (suc fuel) n s {f} e p = elim (Bool-cases (is_over s)) [
    | inl o ↦ let same : s ≡ f = ground arith in subst Q same (over s p o)
    | inr c ↦
        let (t, found, rest) = >>=-eq-ok (turn m w n s) _ (rw c at e) in
        after_turn fuel n s t (turn-View m w n s found) rest (λ g h q. loop_rule fuel (suc n) g h q)
          p
  ]

-- The state in which a run starts.
pub record IsInitial (m : Manifest) (s : LoopState) : Type 0 where
  pub pending : s.pending ≡ m.tasks
  pub running : s.running ≡ []
  pub verified_keys : s.verified_keys ≡ []
  pub failed : s.failed ≡ 0
  pub bounded : IsBounded s.concurrency
  pub same_max : s.concurrency.max_root ≡ m.scheduler.concurrency.max_root

pub initial_state-IsInitial :
    (m : Manifest) (now : ℕ) {s : LoopState} → initial_state m now ≡ ok s → IsInitial m s
unfolding initial_state
initial_state-IsInitial m now e = record {
  pending = ground arith;
  running = ground arith;
  verified_keys = ground arith;
  failed = ground arith;
  bounded = record { positive = ground arith; lower = ground arith; upper = ground arith };
  same_max = ground arith;
}
