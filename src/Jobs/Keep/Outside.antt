-- ===== src/Jobs/Keep/Outside.antt =====
-- The portal's moves of a job and the bookings from outside keep what the laws keep.
use superflow_api.Base.{
  ℕ, ◌≡◌, refl, subst, inl, inr, true, ◌||◌, Option, none, some, arith, ◌==◌, Option-cases,
  Bool-cases,
}
use superflow_api.Jobs.Status.{JobStatus, estimate_sent, approved, same_status}
use superflow_api.Jobs.Types.{Shop, Job}
use superflow_api.Jobs.Stages.{default_stage_key}
use superflow_api.Jobs.Service.{job_by_id, write_job}
use superflow_api.Jobs.Outside.{
  moved_by_portal, approve_job, send_estimate, import_booking, book_deferred,
}
use superflow_api.Portal.Service.{is_over}
use superflow_api.Jobs.Rows.{Found, write_job-Found, job_by_id-own}
use superflow_api.Jobs.Calls.{Scope}
use superflow_api.Jobs.Keep.{RowLaws}

module _ (P : Job → Type 0) (allowed : Scope) (laws : RowLaws P allowed) where
  abbrev Ok : Shop → Type 0
  Ok shop = Found P shop.jobs

  moved_by_portal-Ok :
      (to : JobStatus) (id : ℕ) (j : Job) (shop : Shop)
      → job_by_id id shop.jobs ≡ some j
      → (P j → P (moved_by_portal to (default_stage_key to shop.stages) j))
      → Ok shop
      → Found P (write_job j.id (moved_by_portal to (default_stage_key to shop.stages)) shop.jobs)
  moved_by_portal-Ok to id j shop at law found =
      write_job-Found P shop.jobs found j.id _ j (λ _. refl) (job_by_id-own id shop.jobs j at) law

  pub approve_job-Ok :
      (change id : ℕ) (shop : Shop)
      → allowed.with_portal ≡ true
      → Ok shop
      → Ok (approve_job change (job_by_id id shop.jobs) shop)
  unfolding approve_job
  approve_job-Ok change id shop h found = elim (Option-cases (job_by_id id shop.jobs)) [
    | inl missing ↦ rw missing found
    | inr (j, at) ↦ rw at (
        let written = moved_by_portal-Ok approved id j shop at (laws.on_approval j _ h) found in
        elim (Bool-cases (is_over j.status)) [
          | inl over ↦ rw over found
          | inr on ↦ rw on (elim (Bool-cases (same_status j.status approved)) [
            | inl same ↦ rw same written
            | inr other ↦ rw other written
          ])
        ])
  ]

  pub send_estimate-Ok :
      (change id : ℕ) (shop : Shop)
      → allowed.with_portal ≡ true
      → Ok shop
      → Ok (send_estimate change (job_by_id id shop.jobs) shop)
  unfolding send_estimate
  send_estimate-Ok change id shop h found = elim (Option-cases (job_by_id id shop.jobs)) [
    | inl missing ↦ rw missing found
    | inr (j, at) ↦
        rw at (elim (Bool-cases (same_status j.status estimate_sent || is_over j.status)) [
          | inl stays ↦ rw stays found
          | inr moves ↦
              rw moves (moved_by_portal-Ok estimate_sent id j shop at (laws.on_request j _ h) found)
        ])
  ]

  pub import_booking-Ok :
      (id customer vehicle : ℕ) (advisor promised : Option ℕ) (shop : Shop)
      → allowed.with_outside ≡ true
      → Ok shop
      → Ok (import_booking id customer vehicle advisor promised shop)
  unfolding import_booking
  import_booking-Ok id customer vehicle advisor promised shop h found i j at =
      elim (Bool-cases (id == i)) [
        | inl new ↦ subst P (ground arith) (laws.on_booking id customer vehicle advisor promised h)
        | inr old ↦ found i j (ground arith)
      ]

  pub book_deferred-Ok :
      (id customer vehicle : ℕ) (advisor : Option ℕ) (shop : Shop)
      → allowed.with_outside ≡ true
      → Ok shop
      → Ok (book_deferred id customer vehicle advisor shop)
  unfolding book_deferred import_booking
  book_deferred-Ok id customer vehicle advisor shop h found =
      import_booking-Ok id customer vehicle advisor none shop h found
