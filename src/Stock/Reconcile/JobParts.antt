-- ===== src/Stock/Reconcile/JobParts.antt =====
-- The calls on job parts record what they change.
use superflow_api.Base.{
  ℕ, refl, sym, Bool, true, false, Option, none, some, Keeps, Keeps-bind, or_throw-eq-ok,
}
use superflow_api.Base.Int.{ℤ, +ℤ_zero}
use superflow_api.Stock.Types.{Db, JobPart, Note, PartStatus}
use superflow_api.Stock.JobParts.{
  reserve_existing_for_job, consume_for_job, return_for_job, cancel_reservation, consume_at,
  release_at, cancel_at,
}
use superflow_api.Stock.Ledger.{Reconciles, write-Reconciled}
use superflow_api.Stock.Reconcile.{sub-eq-add}

pub reserve_existing_for_job-Reconciles :
    (movement id user : ℕ) (db : Db)
    → Reconciles db
    → Keeps Reconciles db (reserve_existing_for_job movement id user db)
unfolding reserve_existing_for_job
reserve_existing_for_job-Reconciles movement id user db ledger = Keeps-bind _ _ ledger λ j _.
    Keeps-bind _ _ ledger λ _ _. Keeps-bind _ _ ledger λ _ _. Keeps-bind _ _ ledger λ part _.
      Keeps-bind _ _ ledger λ warehouse _. Keeps-bind _ _ ledger λ row found.
        Keeps-bind _ _ ledger λ _ _. record {
          holds =
              write-Reconciled _ _ ledger part warehouse row _ _ _ (or_throw-eq-ok _ _ found) refl
                refl (sym (+ℤ_zero _)) refl;
        }

consume_at-Reconciles :
    (movement : ℕ) (j : JobPart) (q : ℤ) (user : ℕ) (db : Db) (key : Option (ℕ × ℕ))
    → Reconciles db
    → Keeps Reconciles db (consume_at movement j q user db key)
unfolding consume_at
consume_at-Reconciles movement j q user db none ledger = record { holds = ledger }
consume_at-Reconciles movement j q user db (some (part, warehouse)) ledger =
    Keeps-bind _ _ ledger λ row found. record {
      holds =
          write-Reconciled _ _ ledger part warehouse row _ _ _ (or_throw-eq-ok _ _ found) refl refl
            (sub-eq-add _ _) (sub-eq-add _ _);
    }

pub consume_for_job-Reconciles :
    (movement id user : ℕ) (q : Option ℤ) (db : Db)
    → Reconciles db
    → Keeps Reconciles db (consume_for_job movement id user q db)
unfolding consume_for_job
consume_for_job-Reconciles movement id user q db ledger = Keeps-bind _ _ ledger λ j _.
    Keeps-bind _ _ ledger λ _ _.
      Keeps-bind _ _ ledger
        λ _ _. Keeps-bind _ _ ledger λ _ _. consume_at-Reconciles movement j _ user db _ ledger

release_at-Reconciles :
    (movement : ℕ) (j : JobPart) (q : ℤ) (note : Note) (status : PartStatus) (user : ℕ) (db : Db)
    (key : ℕ × ℕ)
    → Reconciles db
    → Keeps Reconciles db (release_at movement j q note status user db key)
unfolding release_at
release_at-Reconciles movement j q note status user db (part, warehouse) ledger =
    Keeps-bind _ _ ledger λ row found. record {
      holds =
          write-Reconciled _ _ ledger part warehouse row _ _ _ (or_throw-eq-ok _ _ found) refl refl
            (sym (+ℤ_zero _)) (sub-eq-add _ _);
    }

pub return_for_job-Reconciles :
    (movement id user : ℕ) (q : Option ℤ) (db : Db)
    → Reconciles db
    → Keeps Reconciles db (return_for_job movement id user q db)
unfolding return_for_job
return_for_job-Reconciles movement id user q db ledger = Keeps-bind _ _ ledger λ j _.
    Keeps-bind _ _ ledger λ _ _. Keeps-bind _ _ ledger λ key _.
      Keeps-bind _ _ ledger λ _ _. release_at-Reconciles movement j _ _ _ user db key ledger

cancel_at-Reconciles :
    (movement : ℕ) (j : JobPart) (user : ℕ) (db : Db) (is_memo : Bool) (key : Option (ℕ × ℕ))
    → Reconciles db
    → Keeps Reconciles db (cancel_at movement j user db is_memo key)
unfolding cancel_at
cancel_at-Reconciles movement j user db true key ledger = record { holds = ledger }
cancel_at-Reconciles movement j user db false none ledger = record { holds = ledger }
cancel_at-Reconciles movement j user db false (some key) ledger =
    release_at-Reconciles movement j _ _ _ user db key ledger

pub cancel_reservation-Reconciles :
    (movement id user : ℕ) (db : Db)
    → Reconciles db
    → Keeps Reconciles db (cancel_reservation movement id user db)
unfolding cancel_reservation
cancel_reservation-Reconciles movement id user db ledger =
    Keeps-bind _ _ ledger
      λ j _. Keeps-bind _ _ ledger λ _ _. cancel_at-Reconciles movement j user db _ _ ledger
