-- ===== src/Db/Repository/Claims.antt =====
-- A sequence of claims for one task: the first that the database accepts is the only one.
use firstgreen.Prelude.{
  ℕ, ◌+◌, ◌≤◌, String, Bool, true, false, ◌≡◌, refl, List, [], ◌∷◌, if◌then◌else◌, arith,
}
use firstgreen.Prelude.Result.{Result, ok, err}
use firstgreen.Db.Tables.{Database}
use firstgreen.Db.Repository.{claim_winner}
use firstgreen.Db.Repository.Winners.{Won, HasKeys, claim-Won, claim_true-Won, map-id-claim}

-- A claim that raised has not succeeded either.
abbrev accepted : Result Bool → Bool
accepted (ok b) = b
accepted (err e) = false

-- Whether each claim succeeded, in the order in which they come.
pub claims : String → List (String × String) → Database → List Bool
claims t [] db = []
claims t ((a, now) ∷ rest) db =
    let (r, db') = claim_winner t a now db in accepted r ∷ claims t rest db'

abbrev pub count_true : List Bool → ℕ
count_true [] = 0
count_true (b ∷ bs) = (if b then 1 else 0) + count_true bs

claims-Won :
    (t w : String) (requests : List (String × String)) (db : Database)
    → Won t w db
    → count_true (claims t requests db) ≡ 0
unfolding claims
claims-Won t w [] db h = refl
claims-Won t w ((a, now) ∷ rest) db h =
    rw (claim-Won t w a now db h) (omega (arith, claims-Won t w rest db h))

-- From any database with distinct task ids, at most one of the claims for a task succeeds.
pub claims_at_most_one :
    (t : String) (requests : List (String × String)) (db : Database)
    → HasKeys db
    → count_true (claims t requests db) ≤ 1
unfolding claims
claims_at_most_one t [] db keys = omega arith
claims_at_most_one t ((a, now) ∷ rest) db keys =
    by_result (claims_at_most_one t rest (claim_winner t a now db).1) (claim_winner t a now db).0
      refl
  where
    next : Database
    next = (claim_winner t a now db).1

    by_result :
        (HasKeys next → count_true (claims t rest next) ≤ 1)
        → (r : Result Bool) → (claim_winner t a now db).0 ≡ r
        → (if accepted r then 1 else 0) + count_true (claims t rest next) ≤ 1
    by_result ih (ok true) e =
        let same : claim_winner t a now db ≡ (ok true, next) = cc in
        omega (arith, claims-Won t a rest next (claim_true-Won t a now db next same keys))
    by_result ih (ok false) e = omega (arith, ih (rw (map-id-claim t a now db) keys))
    by_result ih (err x) e = omega (arith, ih (rw (map-id-claim t a now db) keys))
