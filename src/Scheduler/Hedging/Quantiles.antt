-- ===== src/Scheduler/Hedging/Quantiles.antt =====
-- `empirical_quantile` and `choose_threshold`: what the chosen threshold says about the samples.
use firstgreen.Prelude.{
  ℕ, zero, suc, ◌+◌, ◌*◌, ◌≤◌, ◌<◌, true, false, ◌≡◌, Option, none, List, [], ◌∷◌, arith,
  Bool-cases, inl, inr, String, length, leb, if◌then◌else◌, All, sort, insert, Ordered,
  sort-Ordered,
}
use firstgreen.Prelude.Result.{Result, ok, err, Returns}
use firstgreen.Scheduler.Hedging.{
  nth, quantile_index, empirical_quantile, Samples, samples_at, historical_level, Threshold,
  choose_from, choose_threshold, fallbacks, RuntimeBucket,
}

abbrev pub count_le : ℕ → List ℕ → ℕ
count_le r [] = 0
count_le r (x ∷ xs) = (if leb x r then 1 else 0) + count_le r xs

count_le-insert : (r x : ℕ) (ys : List ℕ) → count_le r (insert leb x ys) ≡ count_le r (x ∷ ys)
unfolding insert
count_le-insert r x [] = ground arith
count_le-insert r x (y ∷ ys) = ground (arith, count_le-insert r x ys)

count_le-sort : (r : ℕ) (xs : List ℕ) → count_le r (sort leb xs) ≡ count_le r xs
unfolding sort
count_le-sort r [] = ground arith
count_le-sort r (x ∷ xs) = ground (arith, count_le-insert r x (sort leb xs), count_le-sort r xs)

length-insert : (x : ℕ) (ys : List ℕ) → length (insert leb x ys) ≡ suc (length ys)
unfolding insert
length-insert x [] = ground arith
length-insert x (y ∷ ys) = ground (arith, length-insert x ys)

length-sort : (xs : List ℕ) → length (sort leb xs) ≡ length xs
unfolding sort
length-sort [] = ground arith
length-sort (x ∷ xs) = ground (arith, length-insert x (sort leb xs), length-sort xs)

All-nth :
    (x : ℕ) (xs : List ℕ) (i : ℕ) → All (λ y. leb x y ≡ true) xs → i < length xs → x ≤ nth xs i 0
All-nth x [] i h lt = elim lt [ ]
All-nth x (y ∷ ys) zero h lt = ground arith
All-nth x (y ∷ ys) (suc i) h lt = ground (arith, All-nth x ys i h.1)

-- In a sorted list, the entry at `i` has at least `i + 1` entries at or below it.
count_le-nth :
    (xs : List ℕ) (i : ℕ) → Ordered leb xs → i < length xs → i + 1 ≤ count_le (nth xs i 0) xs
count_le-nth [] i h lt = elim lt [ ]
count_le-nth (x ∷ xs) zero h lt = ground arith
count_le-nth (x ∷ xs) (suc i) h lt = ground (arith, count_le-nth xs i h.1, All-nth x xs i h.0)

quantile_index-lt : (q n : ℕ) → 0 < n → q ≤ 1000 → quantile_index q n < n
quantile_index-lt q n h k = grind arith

quantile_parts :
    (samples : List ℕ) (q : ℕ) {r : ℕ}
    → empirical_quantile samples q ≡ ok r
    → (r ≡ nth (sort leb samples) (quantile_index q (length samples)) 0)
      × (0 < length samples)
      × (q ≤ 1000)
unfolding empirical_quantile
quantile_parts [] q h = cc
quantile_parts (x ∷ xs) q h = ground arith

empirical_quantile_total :
    (samples : List ℕ) (q : ℕ)
    → 0 < length samples
    → 0 < q
    → q ≤ 1000
    → (r : ℕ) × (empirical_quantile samples q ≡ ok r)
unfolding empirical_quantile
empirical_quantile_total [] q n k l = elim n [ ]
empirical_quantile_total (x ∷ xs) q n k l =
    (nth (sort leb (x ∷ xs)) (quantile_index q (length (x ∷ xs))) 0, ground arith)

leb_total : (x y : ℕ) → leb x y ≡ false → leb y x ≡ true
leb_total x y h = ground arith

leb_trans : (x y z : ℕ) → leb x y ≡ true → leb y z ≡ true → leb x z ≡ true
leb_trans x y z h k = ground arith

-- The quantile of samples is a value at or below which at least that share of the samples lies.
pub quantile_covers :
    (samples : List ℕ) (quantile : ℕ) {r : ℕ}
    → empirical_quantile samples quantile ≡ ok r
    → quantile * length samples ≤ 1000 * count_le r samples
quantile_covers samples quantile {r} h =
    let (e, some_sample, small) = quantile_parts samples quantile h in
    let i = quantile_index quantile (length samples) in
    let inside : i < length (sort leb samples) =
      omega (
        arith,
        length-sort samples,
        quantile_index-lt quantile (length samples) some_sample small,
      ) in
    let enough : i + 1 ≤ count_le r samples = rw e (
      rw (← count_le-sort (nth (sort leb samples) i 0) samples) (
        count_le-nth (sort leb samples) i (sort-Ordered leb leb_total leb_trans samples) inside)) in
    grind (arith, enough)

module _ (table : Samples) (quantile min_samples : ℕ) (fallback : Option ℕ) where
  abbrev pub Short : List String → Type 0
  Short key = length (samples_at table key) < min_samples

  pub record IsSound (keys : List (List String)) (t : Threshold) : Type 0 where
    pub absent : t.seconds ≡ none → (fallback ≡ none) × All Short keys
    pub counted : (i : ℕ) → t.source ≡ historical_level i → min_samples ≤ t.sample_count

  IsSound-later :
      (key : List String) (keys : List (List String)) (r : Result Threshold)
      → Short key
      → Returns (IsSound keys) r
      → Returns (IsSound (key ∷ keys)) r
  IsSound-later key keys (ok t) h v = record {
    absent = λ e. ((v.absent e).0, (h, (v.absent e).1));
    counted = v.counted;
  }
  IsSound-later key keys (err e) h v = v

  module _ (at_least_one : 1 ≤ min_samples) (positive : 0 < quantile)
      (small : quantile ≤ 1000) where
    choose_from-IsSound :
        (index : ℕ) (keys : List (List String))
        → Returns (IsSound keys) (choose_from table quantile min_samples fallback index keys)
    unfolding choose_from
    choose_from-IsSound index [] = record {
      absent = λ e. (ground arith, tt);
      counted = λ i e. ground arith;
    }
    choose_from-IsSound index (key ∷ keys) =
        elim (Bool-cases (leb min_samples (length (samples_at table key)))) [
          | inl h ↦
              let (r, e) =
                empirical_quantile_total (samples_at table key) quantile (ground arith) positive
                  small in
              rw (h, e)
                (record { absent = λ c. absurd (ground arith); counted = λ i c. ground arith })
          | inr h ↦ rw h (
              IsSound-later key keys
                (choose_from table quantile min_samples fallback (index + 1) keys) (ground arith)
                (choose_from-IsSound (index + 1) keys))
        ]

    -- With a quantile in (0, 1] and at least one sample asked for, the choice never raises; it gives
    -- no seconds only if no fallback is configured and every bucket has too few samples, and a
    -- historical threshold rests on enough samples.
    pub choose_threshold-IsSound :
        (bucket : RuntimeBucket)
        → Returns
            (IsSound (fallbacks bucket))
            (choose_threshold table quantile min_samples fallback bucket)
    unfolding choose_threshold
    choose_threshold-IsSound bucket = choose_from-IsSound 0 (fallbacks bucket)
