-- ===== src/Blockers/Once.antt =====
-- A blocker is resolved or dismissed once (src/blockers/blockers.service.ts).
use superflow_api.Base.{
  ℕ, String, ◌≡◌, refl, subst, Bool, true, false, not, ◌&&◌, Option, some, List, [], ◌∷◌, arith,
  ◌==◌, ==_iff, update_where, is_some, Bool-cases, inl, inr, Keeps, Keeps-bind, or_throw-eq-ok,
  throw_if-eq-ok,
}
use superflow_api.Blockers.Service.{
  Blocker, Board, CreateBlockerDto, create_blocker, resolve, dismiss, is_active, find_blocker,
  write_blocker, as_resolved, as_dismissed, Call, creates, resolves, dismisses, step, run,
}

find_blocker-write :
    (i id : ℕ) (f : Blocker → Blocker) (board : Board)
    → (i == id) ≡ false
    → ((b : Blocker) → (f b).id ≡ b.id)
    → find_blocker i (write_blocker id f board).blockers ≡ find_blocker i board.blockers
find_blocker-write i id f board apart keeps = elsewhere board.blockers
  where
    elsewhere :
        (l : List Blocker) → find_blocker i (update_where (λ b. b.id == id) f l) ≡ find_blocker i l
    elsewhere [] = refl
    elsewhere (b ∷ l) = ground (arith, keeps b, elsewhere l)

module _ (b : Blocker) (settled : is_active b.status ≡ false) where
  abbrev Stays : Board → Type 0
  Stays board = find_blocker b.id board.blockers ≡ some b

  -- The write of an active blocker is of another one.
  write-Stays :
      (id : ℕ) (f : Blocker → Blocker) (board : Board) (c : Blocker)
      → ((k : Blocker) → (f k).id ≡ k.id)
      → find_blocker id board.blockers ≡ some c
      → is_active c.status ≡ true
      → Stays board
      → Stays (write_blocker id f board)
  write-Stays id f board c keeps found going stays = elim (Bool-cases (b.id == id)) [
    | inl here ↦ ground (
      arith,
      going,
      settled,
      found,
      subst (λ n. find_blocker n board.blockers ≡ some b) ((==_iff b.id id).0 here) stays,
    )
    | inr elsewhere ↦ cc (find_blocker-write b.id id f board elsewhere keeps, stays)
  ]

  resolve-Stays :
      (id user now : ℕ) (note : Option String) (board : Board)
      → Stays board
      → Keeps Stays board (resolve id user now note board)
  unfolding resolve
  resolve-Stays id user now note board s = Keeps-bind _ _ s λ c found. Keeps-bind _ _ s λ _ guard.
      record {
        holds =
            write-Stays id (as_resolved user now note) board c (λ _. refl)
              (or_throw-eq-ok _ _ found) (ground (arith, throw_if-eq-ok _ _ guard)) s;
      }

  dismiss-Stays : (id : ℕ) (board : Board) → Stays board → Keeps Stays board (dismiss id board)
  unfolding dismiss
  dismiss-Stays id board s = Keeps-bind _ _ s λ c found. Keeps-bind _ _ s λ _ guard. record {
    holds =
        write-Stays id as_dismissed board c (λ _. refl) (or_throw-eq-ok _ _ found)
          (ground (arith, throw_if-eq-ok _ _ guard)) s;
  }

  create_blocker-Stays :
      (id : ℕ) (dto : CreateBlockerDto) (user : ℕ) (board : Board)
      → is_some (find_blocker id board.blockers) ≡ false
      → Stays board
      → Keeps Stays board (create_blocker id dto user board)
  unfolding create_blocker
  create_blocker-Stays id dto user board anew s = Keeps-bind _ _ s λ _ _. record {
    holds = elim (Bool-cases (id == b.id)) [
      | inl here ↦ ground (
        arith,
        s,
        subst (λ n. is_some (find_blocker n board.blockers) ≡ false) ((==_iff id b.id).0 here) anew,
      )
      | inr elsewhere ↦ ground (arith, s, elsewhere)
    ];
  }

-- A call that creates a blocker gives it an id that no blocker has.
abbrev pub is_anew : Board → Call → Bool
is_anew board (creates id _ _) = not (is_some (find_blocker id board.blockers))
is_anew board _ = true

unfoldable pub all_anew : Board → List Call → Bool
all_anew board [] = true
all_anew board (c ∷ calls) = is_anew board c && all_anew (step board c) calls

step-Stays :
    (b : Blocker) (settled : is_active b.status ≡ false) (c : Call) (board : Board)
    → is_anew board c ≡ true
    → Stays b settled board
    → Stays b settled (step board c)
unfolding step
step-Stays b settled (creates id dto user) board h s =
    (create_blocker-Stays b settled id dto user board (ground arith) s).holds
step-Stays b settled (resolves id user now note) board h s =
    (resolve-Stays b settled id user now note board s).holds
step-Stays b settled (dismisses id) board h s = (dismiss-Stays b settled id board s).holds

-- A blocker that is resolved or dismissed is never written again, over any history of calls in
-- which new blockers get new ids: who resolved it, when and with what note stay as they are.
pub run-settled :
    (b : Blocker) (calls : List Call) (board : Board)
    → is_active b.status ≡ false
    → all_anew board calls ≡ true
    → find_blocker b.id board.blockers ≡ some b
    → find_blocker b.id (run board calls).blockers ≡ some b
unfolding run all_anew
run-settled b [] board settled h s = s
run-settled b (c ∷ calls) board settled h s =
    run-settled b calls (step board c) settled (ground arith)
      (step-Stays b settled c board (ground arith) s)
