-- ===== src/Billing/Payments.antt =====
-- An invoice is paid once, in full (src/billing/billing.service.ts).
use superflow_api.Base.{
  ℕ, ◌≡◌, refl, sym, ◌∙◌, subst, Bool, true, false, not, ◌&&◌, Option, some, List, [], ◌∷◌, arith,
  ◌==◌, ==_iff, any, update_where, is_some, Option-cases, Bool-cases, inl, inr, if◌then◌else◌,
  Keeps, Keeps-bind, or_throw-eq-ok, throw_if-eq-ok,
}
use mathlib.Core.Option.{map}
use superflow_api.Base.Int.{ℤ, pos}
use superflow_api.Billing.Types.{Billing, Invoice, Payment, ActivateOptions}
use superflow_api.Billing.Service.{
  find_invoice, is_paid, as_paid, payment_of, activate_subscription, create_invoice,
  mark_invoice_paid, Call, activates, invoices, pays, step, run,
}

-- The amounts of an invoice's payments
abbrev pub amounts : ℕ → List Payment → List ℤ
amounts id [] = []
amounts id (p ∷ ps) =
    let rest = amounts id ps in if p.invoice_id == id then p.amount_cents ∷ rest else rest

-- A paid invoice has one payment, of its total; another has none.
abbrev pub IsSettled : Billing → Type 0
IsSettled db =
    (id : ℕ) (i : Invoice)
    → find_invoice id db.invoices ≡ some i
    → (amounts id db.payments ≡ (if is_paid i.status then i.total_cents ∷ [] else []))
      × (i.amount_paid_cents ≡ (if is_paid i.status then i.total_cents else pos 0))

find_invoice-paid :
    (now id k : ℕ) (amount : ℤ) (l : List Invoice)
    → find_invoice k (update_where (λ x. x.id == id) (as_paid now amount) l)
      ≡ map (λ x. if x.id == id then as_paid now amount x else x) (find_invoice k l)
find_invoice-paid now id k amount [] = refl
find_invoice-paid now id k amount (i ∷ l) = ground (arith, find_invoice-paid now id k amount l)

find_invoice-id : (k : ℕ) (l : List Invoice) (i : Invoice) → find_invoice k l ≡ some i → i.id ≡ k
find_invoice-id k [] i h = cc
find_invoice-id k (x ∷ l) i h = elim (Bool-cases (x.id == k)) [
  | inl here ↦ ground (arith, here, h)
  | inr there ↦ find_invoice-id k l i (ground (arith, there, h))
]

some_inj : {a b : Invoice} → ◌≡◌ {A = Option Invoice} (some a) (some b) → a ≡ b
some_inj h = cc h

mark_invoice_paid-IsSettled :
    (now id method : ℕ) (db : Billing)
    → IsSettled db
    → Keeps IsSettled db (mark_invoice_paid now id method db)
unfolding mark_invoice_paid
mark_invoice_paid-IsSettled now id method db settled = Keeps-bind _ _ settled λ i found.
    Keeps-bind _ _ settled λ _ guard. record {
      holds = λ k j h. paid i k j (or_throw-eq-ok _ _ found) (throw_if-eq-ok _ _ guard) h;
    }
  where
    paid :
        (i : Invoice) (k : ℕ) (j : Invoice)
        → find_invoice id db.invoices ≡ some i
        → is_paid i.status ≡ false
        → find_invoice k (update_where (λ x. x.id == id) (as_paid now i.total_cents) db.invoices)
          ≡ some j
        → (amounts k (payment_of now method i ∷ db.payments)
            ≡ (if is_paid j.status then j.total_cents ∷ [] else []))
          × (j.amount_paid_cents ≡ (if is_paid j.status then j.total_cents else pos 0))
    paid i k j found unpaid h = elim (Bool-cases (k == id)) [
      | inl here ↦
          let its : find_invoice k db.invoices ≡ some i =
            subst (λ n. find_invoice n db.invoices ≡ some i) (sym ((==_iff k id).0 here)) found in
          let same = find_invoice-id k db.invoices i its in
          let wrote = sym h ∙ find_invoice-paid now id k i.total_cents db.invoices in
          ground (arith, wrote, its, same, here, settled k i its, unpaid)
      | inr elsewhere ↦ elim (Option-cases (find_invoice k db.invoices)) [
        | inl none' ↦ cc (h, find_invoice-paid now id k i.total_cents db.invoices, none')
        | inr (u, at) ↦
            let named = find_invoice-id k db.invoices u at in
            let own = find_invoice-id id db.invoices i found in
            let wrote = sym h ∙ find_invoice-paid now id k i.total_cents db.invoices in
            let same : u ≡ j = ground (arith, wrote, at, named, elsewhere) in
            let before =
              subst
                (λ x.
                  (amounts k db.payments ≡ (if is_paid x.status then x.total_cents ∷ [] else []))
                  × (x.amount_paid_cents ≡ (if is_paid x.status then x.total_cents else pos 0)))
                same (settled k u at) in
            (ground (arith, own, elsewhere, before.0), before.1)
      ]
    ]

-- A new invoice has an id that no invoice and no payment has.
abbrev pub is_anew : Billing → Call → Bool
is_anew db (invoices _ id _ _ _ _) =
    not (is_some (find_invoice id db.invoices)) && not (any (λ p. p.invoice_id == id) db.payments)
is_anew db _ = true

unfoldable pub all_anew : Billing → List Call → Bool
all_anew db [] = true
all_anew db (c ∷ calls) = is_anew db c && all_anew (step db c) calls

no_amounts :
    (id : ℕ) (ps : List Payment) → any (λ p. p.invoice_id == id) ps ≡ false → amounts id ps ≡ []
no_amounts id [] h = refl
no_amounts id (p ∷ ps) h = ground (arith, no_amounts id ps)

create_invoice-IsSettled :
    (now id w plan_id region : ℕ) (start : Option ℕ) (db : Billing)
    → any (λ p. p.invoice_id == id) db.payments ≡ false
    → IsSettled db
    → Keeps IsSettled db (create_invoice now id w plan_id region start db)
unfolding create_invoice
create_invoice-IsSettled now id w plan_id region start db anew settled =
    Keeps-bind _ _ settled λ _ _. Keeps-bind _ _ settled λ _ _. record {
      holds = λ k i h. elim (Bool-cases (id == k)) [
        | inl here ↦
            let none_yet =
              subst (λ n. amounts n db.payments ≡ []) ((==_iff id k).0 here)
                (no_amounts id db.payments anew) in
            ground (arith, here, h, none_yet)
        | inr elsewhere ↦ settled k i (ground (arith, elsewhere, h))
      ];
    }

activate_subscription-IsSettled :
    (now id w plan_id region : ℕ) (opts : ActivateOptions) (db : Billing)
    → IsSettled db
    → Keeps IsSettled db (activate_subscription now id w plan_id region opts db)
unfolding activate_subscription
activate_subscription-IsSettled now id w plan_id region opts db settled =
    Keeps-bind _ _ settled λ _ _. Keeps-bind _ _ settled λ _ _. record { holds = settled }

step-IsSettled :
    (c : Call) (db : Billing) → is_anew db c ≡ true → IsSettled db → IsSettled (step db c)
unfolding step
step-IsSettled (activates now id w plan_id region opts) db h settled =
    (activate_subscription-IsSettled now id w plan_id region opts db settled).holds
step-IsSettled (invoices now id w plan_id region start) db h settled =
    (create_invoice-IsSettled now id w plan_id region start db (ground arith) settled).holds
step-IsSettled (pays now id method) db h settled =
    (mark_invoice_paid-IsSettled now id method db settled).holds

-- An invoice is paid once and in full: after any history of calls in which new invoices get new
-- ids, a paid invoice has exactly one payment, of its total, and the same amount is noted in it;
-- an invoice that is not paid has no payment. It is so at the start.
pub run-IsSettled :
    (calls : List Call) (db : Billing)
    → IsSettled db
    → all_anew db calls ≡ true
    → IsSettled (run db calls)
unfolding run all_anew
run-IsSettled [] db settled h = settled
run-IsSettled (c ∷ calls) db settled h =
    run-IsSettled calls (step db c) (step-IsSettled c db (ground arith) settled) (ground arith)
