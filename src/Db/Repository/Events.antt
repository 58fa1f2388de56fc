-- ===== src/Db/Repository/Events.antt =====
-- The event log only grows, its ids stay distinct and its sequence numbers rise.
use firstgreen.Prelude.{
  ℕ, ◌≤◌, ◌<◌, String, true, ◌≡◌, refl, List, [], ◌∷◌, ◌++◌, map, ◌==◌, arith, eq_iff, Bool-cases,
  inl, inr, any, mem, distinct, distinct_snoc, eq_refl, sym, ◌∙◌,
}
use mathlib.Core.List.{append-nil, map-append}
use firstgreen.Db.Tables.{EventRow, Database}
use firstgreen.Db.Repository.{next_sequence, append_event}

abbrev pub event_ids : List EventRow → List String
event_ids es = map (λ (e : EventRow). e.id) es

-- Each sequence number is above all that stand before it.
abbrev pub Rising : ℕ → List EventRow → Type 0
Rising n [] = Unit
Rising n (e ∷ es) = (n < e.sequence) × Rising e.sequence es

pub record IsLog (db : Database) : Type 0 where
  pub ids_distinct : distinct (event_ids db.events) ≡ true
  pub rising : Rising 0 db.events

any-mem :
    (k : String) (es : List EventRow) → any (λ (r : EventRow). r.id == k) es ≡ mem k (event_ids es)
any-mem k [] = refl
any-mem k (e ∷ es) = ground (arith, any-mem k es, eq_iff e.id k, eq_iff k e.id)

any_last :
    (e : EventRow) (es : List EventRow) → any (λ (r : EventRow). r.id == e.id) (es ++ e ∷ []) ≡ true
any_last e [] = ground (arith, eq_refl e.id)
any_last e (x ∷ es) = ground (arith, any_last e es)

Rising-snoc :
    (n : ℕ) (e : EventRow) (es : List EventRow)
    → Rising n es
    → n < e.sequence
    → next_sequence es ≤ e.sequence
    → Rising n (es ++ e ∷ [])
unfolding next_sequence
Rising-snoc n e [] r lt le = (lt, tt)
Rising-snoc n e (x ∷ es) r lt le =
    (r.0, Rising-snoc x.sequence e es r.1 (omega arith) (omega arith))

next_sequence-pos : (es : List EventRow) → 0 < next_sequence es
unfolding next_sequence
next_sequence-pos [] = omega arith
next_sequence-pos (e ∷ es) = omega (arith, next_sequence-pos es)

-- An event is added at the end, or dropped if its id is known: what was in the log stays there.
pub append_event_extends :
    (e : EventRow) (db : Database)
    → (more : List EventRow) × ((append_event e db).1.events ≡ db.events ++ more)
      × (any (λ (r : EventRow). r.id == e.id) (db.events ++ more) ≡ true)
unfolding append_event
append_event_extends e db = elim (Bool-cases (any (λ (r : EventRow). r.id == e.id) db.events)) [
  | inl old ↦ ([], rw (old, append-nil), rw append-nil old)
  | inr new ↦
      let e' = record e { sequence = next_sequence db.events } in
      (e' ∷ [], rw new, any_last e' db.events)
]

-- Appending keeps the log's ids distinct and its sequence numbers rising.
pub append_event-IsLog : (e : EventRow) (db : Database) → IsLog db → IsLog (append_event e db).1
unfolding append_event
append_event-IsLog e db l = elim (Bool-cases (any (λ (r : EventRow). r.id == e.id) db.events)) [
  | inl old ↦ rw old (record { ids_distinct = l.ids_distinct; rising = l.rising })
  | inr new ↦
      let e' = record e { sequence = next_sequence db.events } in
      rw new (record {
        ids_distinct = rw map-append (
            distinct_snoc e.id (event_ids db.events) l.ids_distinct
              (sym (any-mem e.id db.events) ∙ new));
        rising = Rising-snoc 0 e' db.events l.rising (next_sequence-pos db.events) (omega arith);
      })
]
