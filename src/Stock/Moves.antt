-- ===== src/Stock/Moves.antt =====
-- What a transfer and a reservation move (src/inventory/inventory.service.ts,
-- src/job-parts/job-parts.service.ts).
use superflow_api.Base.{
  ℕ, ◌≡◌, ap, subst, Bool, true, false, ◌&&◌, some, arith, ◌==◌, if◌then◌else◌, ok, ok_inj, after,
  >>=-eq-ok, or_throw-eq-ok, throw_if-eq-ok,
}
use superflow_api.Base.Int.{ℤ, pos, ◌+ℤ◌, ◌-ℤ◌, leb_ℤ, int_laws}
use superflow_api.Stock.Types.{Db, JobPart}
use superflow_api.Stock.Table.{IsFresh, stock_at-write_keyed}
use superflow_api.Stock.Adjust.{TransferStockDto, transfer_stock}
use superflow_api.Stock.JobParts.{reserve_existing_for_job, find_job_part}
use superflow_api.Stock.Ledger.{
  Reconciles, on_hand_effect, reserved_effect, net, on_hand_at, reserved_at,
}
use superflow_api.Stock.Reconcile.Adjust.{transfer_stock-Reconciles}
use superflow_api.Stock.Reconcile.JobParts.{reserve_existing_for_job-Reconciles}

-- What a transfer brings to a part in a warehouse.
abbrev pub brought : TransferStockDto → ℕ → ℕ → ℤ
brought dto p w =
    (if p == dto.part_id && w == dto.to_warehouse_id then dto.quantity else pos 0)
    -ℤ (if p == dto.part_id && w == dto.from_warehouse_id then dto.quantity else pos 0)

-- What can still be taken from a part in a warehouse.
abbrev pub available_at : Db → ℕ → ℕ → ℤ
available_at db p w = on_hand_at db.inventory p w -ℤ reserved_at db.inventory p w

net_of_two :
    (n q : ℤ) (b c : Bool)
    → n +ℤ (if c then pos 0 -ℤ q else pos 0) +ℤ (if b then q else pos 0)
      ≡ n +ℤ ((if b then q else pos 0) -ℤ (if c then q else pos 0))
net_of_two n q true true = omega int_laws
net_of_two n q true false = omega int_laws
net_of_two n q false true = omega int_laws
net_of_two n q false false = omega int_laws

net_of_none :
    (n : ℤ) (b c : Bool) → n +ℤ (if c then pos 0 else pos 0) +ℤ (if b then pos 0 else pos 0) ≡ n
net_of_none n true true = omega int_laws
net_of_none n true false = omega int_laws
net_of_none n false true = omega int_laws
net_of_none n false false = omega int_laws

module _ (row out_id in_id : ℕ) (dto : TransferStockDto) (user : ℕ) (db db' : Db)
    (fresh : IsFresh row db.inventory) (ledger : Reconciles db)
    (done : transfer_stock row out_id in_id dto user db ≡ ok (tt, db')) where
  transferred-Reconciles : Reconciles db'
  transferred-Reconciles =
      subst (λ r. Reconciles (after db r)) done
        (transfer_stock-Reconciles row out_id in_id dto user db fresh ledger).holds

  transferred-net :
      (p w : ℕ)
      → (net on_hand_effect p w db'.movements
          ≡ net on_hand_effect p w db.movements +ℤ brought dto p w)
        × (net reserved_effect p w db'.movements ≡ net reserved_effect p w db.movements)
  unfolding transfer_stock
  transferred-net p w =
      let (_, apart, h1) = >>=-eq-ok _ _ done in
      let (_, _, h2) = >>=-eq-ok _ _ h1 in
      let (_, _, h3) = >>=-eq-ok _ _ h2 in
      let (_, _, h4) = >>=-eq-ok _ _ h3 in
      let log = ap (λ r. (r.1).movements) (ok_inj h4) in
      let to = p == dto.part_id && w == dto.to_warehouse_id in
      let from = p == dto.part_id && w == dto.from_warehouse_id in
      (
        subst
            (λ l. net on_hand_effect p w l ≡ net on_hand_effect p w db.movements +ℤ brought dto p w)
            log (net_of_two (net on_hand_effect p w db.movements) dto.quantity to from),
        subst (λ l. net reserved_effect p w l ≡ net reserved_effect p w db.movements) log
            (net_of_none (net reserved_effect p w db.movements) to from),
      )

  source_left : leb_ℤ dto.quantity (available_at db dto.part_id dto.from_warehouse_id) ≡ true
  unfolding transfer_stock
  source_left =
      let (_, apart, h1) = >>=-eq-ok _ _ done in
      let (_, _, h2) = >>=-eq-ok _ _ h1 in
      let (source, found, h3) = >>=-eq-ok _ _ h2 in
      let (_, enough, h4) = >>=-eq-ok _ _ h3 in
      ground (
        arith,
        or_throw-eq-ok _ _ found,
        throw_if-eq-ok _ _ enough,
        ledger.available dto.part_id dto.from_warehouse_id,
      )

  -- A transfer that succeeds takes its quantity from the part in the one warehouse, where so much
  -- was available, and brings it to the part in the other; every other part and warehouse has
  -- what it had, and no reservation changes. This is so where the movement log accounts for the
  -- inventory and a new row gets a fresh id.
  pub transfer_stock-moves :
      (leb_ℤ dto.quantity (available_at db dto.part_id dto.from_warehouse_id) ≡ true)
      × ((p w : ℕ)
          → (on_hand_at db'.inventory p w ≡ on_hand_at db.inventory p w +ℤ brought dto p w)
            × (reserved_at db'.inventory p w ≡ reserved_at db.inventory p w))
  transfer_stock-moves = (
    source_left,
    λ p w. (
      cc (transferred-Reconciles.on_hand p w, ledger.on_hand p w, (transferred-net p w).0),
      cc (transferred-Reconciles.held p w, ledger.held p w, (transferred-net p w).1),
    ),
  )

module _ (movement id user : ℕ) (db db' : Db) (ledger : Reconciles db)
    (done : reserve_existing_for_job movement id user db ≡ ok (tt, db')) where
  reserved-Reconciles : Reconciles db'
  reserved-Reconciles =
      subst (λ r. Reconciles (after db r)) done
        (reserve_existing_for_job-Reconciles movement id user db ledger).holds

  -- A reservation that succeeds is of a part in a warehouse that the job part names; there it
  -- adds the job part's quantity to what is reserved and leaves what is on hand, and so much was
  -- available. This is so where the movement log accounts for the inventory.
  pub reserve_existing_for_job-reserves :
      (j : JobPart) × (p : ℕ) × (w : ℕ) × (find_job_part id db.job_parts ≡ some j)
      × (j.part_id ≡ some p)
      × (j.warehouse_id ≡ some w)
      × (leb_ℤ j.quantity (available_at db p w) ≡ true)
      × (reserved_at db'.inventory p w ≡ reserved_at db.inventory p w +ℤ j.quantity)
      × (on_hand_at db'.inventory p w ≡ on_hand_at db.inventory p w)
  unfolding reserve_existing_for_job
  reserve_existing_for_job-reserves =
      let (j, fj, h1) = >>=-eq-ok _ _ done in
      let (_, _, h2) = >>=-eq-ok _ _ h1 in
      let (_, _, h3) = >>=-eq-ok _ _ h2 in
      let (p, fp, h4) = >>=-eq-ok _ _ h3 in
      let (w, fw, h5) = >>=-eq-ok _ _ h4 in
      let (r, fr, h6) = >>=-eq-ok _ _ h5 in
      let (_, enough, h7) = >>=-eq-ok _ _ h6 in
      let rows = ap (λ x. (x.1).inventory) (ok_inj h7) in
      let at = or_throw-eq-ok _ _ fr in
      let h = r.quantity_on_hand in
      let v = r.reserved_quantity +ℤ j.quantity in
      let after_write = stock_at-write_keyed p w p w h v db.inventory r ledger.keyed at in
      (
        j,
        p,
        w,
        or_throw-eq-ok _ _ fj,
        or_throw-eq-ok _ _ fp,
        or_throw-eq-ok _ _ fw,
        ground (arith, at, throw_if-eq-ok _ _ enough, ledger.available p w),
        subst (λ rows. reserved_at rows p w ≡ reserved_at db.inventory p w +ℤ j.quantity) rows
            (ground (arith, at, after_write)),
        subst (λ rows. on_hand_at rows p w ≡ on_hand_at db.inventory p w) rows
            (ground (arith, at, after_write)),
      )
