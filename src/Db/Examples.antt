-- ===== src/Db/Examples.antt =====
-- Tests and witnesses for the repository.
use firstgreen.Prelude.{◌≤◌, true, false, ◌≡◌, refl, [], ◌∷◌}
use firstgreen.Prelude.Result.{ok}
use firstgreen.Db.Sql.{rowcount, update_where}
use firstgreen.Db.Tables.{Database}
use firstgreen.Db.Repository.{claim_winner, reconcile_orphans}
use firstgreen.Db.Repository.Claims.{claims, count_true, claims_at_most_one}
use firstgreen.Db.Repository.Recovery.{IsQuiet, reconcile-IsQuiet}
use firstgreen.Db.Repository.Events.{IsLog}
use firstgreen.Db.Samples.{sample_db}

abbrev won_db : Database
won_db = (claim_winner "t" "a" "now" sample_db).1

first_claim : claim_winner "t" "a" "now" sample_db ≡ (ok true, won_db)
unfolding claim_winner rowcount update_where
first_claim = refl

second_claim : (claim_winner "t" "b" "later" won_db).0 ≡ ok false
unfolding claim_winner rowcount update_where
second_claim = refl

claims_at_most_one_example :
    count_true (claims "t" (("a", "now") ∷ ("b", "later") ∷ []) sample_db) ≤ 1
claims_at_most_one_example =
    claims_at_most_one "t" (("a", "now") ∷ ("b", "later") ∷ []) sample_db refl

reconcile-IsQuiet_example : IsQuiet (reconcile_orphans "now" sample_db).1
reconcile-IsQuiet_example = reconcile-IsQuiet "now" sample_db

sample-IsLog : IsLog sample_db
sample-IsLog = record { ids_distinct = refl; rising = tt }
