-- ===== src/Scheduler/Concurrency/Bounds.antt =====
-- The AIMD controller keeps the root concurrency within its limits, and never raises.
use firstgreen.Prelude.{
  ℕ, ◌+◌, ◌*◌, ◌/◌, ◌≤◌, ◌<◌, max, String, true, false, List, [], ◌∷◌, ◌≡◌, ◌≢◌, refl, ◌∙◌, ◌==◌,
  arith, is_empty,
}
use firstgreen.Prelude.Result.{Result, ok, ◌>>=◌, Returns, Returns-bind, Returns-get}
use firstgreen.Scheduler.Concurrency.{
  PressureSnapshot, pressure_reasons, ConcurrencyState, new_state, hold, decrease, increase,
  ConcurrencyDecision, AimdController, cooling, is_healthy, decide,
}

pub record IsBounded (s : ConcurrencyState) : Type 0 where
  pub positive : 1 ≤ s.min_root
  pub lower : s.min_root ≤ s.current_root
  pub upper : s.current_root ≤ s.max_root

-- A state that the constructor returns is within its bounds.
pub new_state-IsBounded :
    (current low high at pressure healthy : ℕ) {s : ConcurrencyState}
    → new_state current low high at pressure healthy ≡ ok s
    → IsBounded s
unfolding new_state
new_state-IsBounded current low high at pressure healthy h = record {
  positive = ground arith;
  lower = ground arith;
  upper = ground arith;
}

abbrev pub Decided : Type 0
Decided = ConcurrencyState × ConcurrencyDecision

-- What one decision may do to a state: it stays bounded, within the same limits, and grows by one
-- root at most; the decision reports the two counts.
pub record IsControlled (s : ConcurrencyState) (r : Decided) : Type 0 where
  pub bounded : IsBounded r.0
  pub same_min : r.0.min_root ≡ s.min_root
  pub same_max : r.0.max_root ≡ s.max_root
  pub additive : r.0.current_root ≤ s.current_root + 1
  pub halved : s.current_root ≤ r.0.current_root * 2 + 1
  pub reported : (r.1.old_root ≡ s.current_root) × (r.1.new_root ≡ r.0.current_root)

module _ (c : AimdController) (s : ConcurrencyState) (snapshot : PressureSnapshot) (now : ℕ)
    (mode : String) where
  -- From a bounded state the controller never raises: it returns a bounded state with the same
  -- limits, which has at most one root more and at least half of the roots, rounded down, and a
  -- decision that reports the old and the new count.
  pub decide-IsControlled : IsBounded s → Returns (IsControlled s) (decide c s snapshot now mode)
  unfolding decide
  decide-IsControlled v = ground arith

  -- A decision raises the count only in automatic mode, outside the cooldown, without any pressure,
  -- with work waiting and enough finished samples; and then by exactly one.
  pub increase_needs :
      {r : Decided}
      → decide c s snapshot now mode ≡ ok r
      → r.1.action ≡ increase
      → ((mode == "auto") ≡ true)
        × (cooling c s now ≡ false)
        × (pressure_reasons snapshot ≡ [])
        × (is_healthy c s snapshot ≡ true)
        × (r.0.current_root ≡ s.current_root + 1)
  unfolding decide
  increase_needs h e = ground arith

  -- Under any pressure in automatic mode and outside the cooldown, the count becomes half, though
  -- never less than the minimum, and the decision names every reason.
  pub pressure_halves :
      IsBounded s
      → (mode == "auto") ≡ true
      → cooling c s now ≡ false
      → is_empty (pressure_reasons snapshot) ≡ false
      → Returns
          (λ r.
            (r.0.current_root ≡ max s.min_root (s.current_root / 2))
            × (r.1.action ≡ decrease)
            × (r.1.reason ≡ pressure_reasons snapshot))
          (decide c s snapshot now mode)
  unfolding decide
  pressure_halves v m k p = ground arith

  -- A decision that is no hold starts a cooldown: up to its end the controller returns the state as
  -- it is, whatever the snapshot and the mode.
  pub cooldown_holds :
      {r : Decided} (snapshot' : PressureSnapshot) (later : ℕ) (mode' : String)
      → decide c s snapshot now mode ≡ ok r
      → r.1.action ≢ hold
      → later < now + c.cooldown_seconds * 1000000
      → Returns (λ r'. (r'.0 ≡ r.0) × (r'.1.action ≡ hold)) (decide c r.0 snapshot' later mode')
  unfolding decide
  cooldown_holds snapshot' later mode' h a t = ground arith

-- One control window: what was measured, when, and in which mode.
pub record Window : Type 0 where
  pub snapshot : PressureSnapshot
  pub now : ℕ
  pub mode : String

-- The controller over a series of windows, as the scheduler's loop calls it.
unfoldable pub control : AimdController → ConcurrencyState → List Window → Result ConcurrencyState
control c s [] = ok s
control c s (w ∷ ws) = decide c s w.snapshot w.now w.mode >>= λ r. control c r.0 ws

pub record StaysWithin (s t : ConcurrencyState) : Type 0 where
  pub bounded : IsBounded t
  pub same_min : t.min_root ≡ s.min_root
  pub same_max : t.max_root ≡ s.max_root

control-StaysWithin :
    (c : AimdController) (s t : ConcurrencyState) (ws : List Window)
    → StaysWithin s t
    → Returns (StaysWithin s) (control c t ws)
unfolding control
control-StaysWithin c s t [] v = v
control-StaysWithin c s t (w ∷ ws) v =
    Returns-bind (IsControlled t) (StaysWithin s) (decide c t w.snapshot w.now w.mode)
      (λ r. control c r.0 ws) (decide-IsControlled c t w.snapshot w.now w.mode v.bounded)
      λ r g. control-StaysWithin c s r.0 ws (record {
        bounded = g.bounded;
        same_min = g.same_min ∙ v.same_min;
        same_max = g.same_max ∙ v.same_max;
      })

-- Over any series of windows the controller never raises, and the root concurrency stays within the
-- limits that it began with.
pub control_bounded :
    (c : AimdController) (s : ConcurrencyState) (ws : List Window)
    → IsBounded s
    → Returns (λ t. (s.min_root ≤ t.current_root) × (t.current_root ≤ s.max_root)) (control c s ws)
control_bounded c s ws v =
    let (t, e, w) =
      Returns-get (StaysWithin s) (control c s ws)
        (control-StaysWithin c s s ws (record { bounded = v; same_min = refl; same_max = refl })) in
    rw e (omega (arith, w.bounded, w.same_min, w.same_max))
