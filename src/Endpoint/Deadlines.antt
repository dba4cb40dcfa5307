-- ===== src/Endpoint/Deadlines.antt =====
-- The deadline of an endpoint of src/server_endpoint.c against those of its connections.
use ext_ngtcp.Prelude.{
  ℕ, ◌≡◌, ◌⊎◌, inl, inr, refl, Bool, true, false, Option, none, some, List, [], ◌∷◌, arith, slt64,
  subst, Bool-cases, ◌∙◌, if◌then◌else◌, ◌==◌,
}
use ext_ngtcp.Endpoint.State.{
  Dispatch, failed, raised, other, Ran, stopped, pending, ran, after_raise, of_connection, value,
  Handler, Endpoint, EndpointError, Table, Answer, returned, thrown,
}
use ext_ngtcp.Endpoint.Methods.{earlier, least_of, get_next_expiry, get_next_timeout}

-- The answers of the connections in the table's order, without those that are no number; `none` if a
-- call fails or throws.
unfoldable pub answers :
    (H : Handler) → (H.Object → Dispatch ℕ × H.Object) → Table → (ℕ → H.Object) → Option (List ℕ)
answers H method [] objects = some []
answers H method ((k, h) ∷ table) objects =
    let (result, o) = method (objects h) in
    let rest = answers H method table (λ i. if i == h then o else objects i) in
    elim result [
      | failed ↦ none
      | raised ↦ none
      | other ↦ rest
      | value v ↦ elim rest [ none ↦ none | some vs ↦ some (v ∷ vs) ]
    ]

pub least_from : Option ℕ → List ℕ → Option ℕ
least_from least [] = least
least_from least (v ∷ vs) = least_from (earlier least v) vs

abbrev scan : Option ℕ → Option (List ℕ) → Option (Option ℕ)
scan least none = none
scan least (some vs) = some (least_from least vs)

-- m is one of the numbers, and none of them is lower as an int64_t.
abbrev pub OneOf : ℕ → List ℕ → Type 0
OneOf m [] = ⊥
OneOf m (v ∷ vs) = (m ≡ v) ⊎ OneOf m vs

abbrev pub NoneBelow : ℕ → List ℕ → Type 0
NoneBelow m [] = Unit
NoneBelow m (v ∷ vs) = (slt64 v m ≡ false) × NoneBelow m vs

scan_value :
    (least : Option ℕ) (v : ℕ) (rest : Option (List ℕ))
    → scan (earlier least v) rest ≡ scan least (elim rest [ none ↦ none | some vs ↦ some (v ∷ vs) ])
unfolding least_from
scan_value least v none = refl
scan_value least v (some vs) = refl

abbrev found_by : {A : Type 0} → Ran A → Option A
found_by stopped = none
found_by pending = none
found_by (ran a) = some a

after_raise-found_by :
    (A : Type 0) (b : Bool) (table : Table) → found_by (after_raise {A = A} b table) ≡ none
unfolding after_raise
after_raise-found_by A b [] = refl
after_raise-found_by A true (entry ∷ table) = refl
after_raise-found_by A false (entry ∷ table) = refl

module _ (H : Handler) (method : H.Object → Dispatch ℕ × H.Object) where
  least_step :
      (r : Dispatch ℕ) (table : Table) (least : Option ℕ) (objects : ℕ → H.Object)
      → ((l : Option ℕ)
          → found_by (least_of H method table l objects).0
            ≡ scan l (answers H method table objects))
      → let found : Ran (Option ℕ) × (ℕ → H.Object) = elim r [
        | failed ↦ (stopped, objects)
        | raised ↦ (after_raise H.fails_while_pending table, objects)
        | other ↦ least_of H method table least objects
        | value v ↦ least_of H method table (earlier least v) objects
      ] in
        found_by found.0
        ≡ scan least (elim r [
          | failed ↦ none
          | raised ↦ none
          | other ↦ answers H method table objects
          | value v ↦ elim (answers H method table objects) [
            | none ↦ none
            | some vs ↦ some (v ∷ vs)
          ]
        ])
  least_step failed table least objects ih = refl
  least_step raised table least objects ih =
      after_raise-found_by (Option ℕ) H.fails_while_pending table
  least_step other table least objects ih = ih least
  least_step (value v) table least objects ih =
      ih (earlier least v) ∙ scan_value least v (answers H method table objects)

  least_of-answers :
      (table : Table) (least : Option ℕ) (objects : ℕ → H.Object)
      → found_by (least_of H method table least objects).0
        ≡ scan least (answers H method table objects)
  unfolding least_of answers least_from
  least_of-answers [] least objects = refl
  least_of-answers ((k, h) ∷ table) least objects =
      least_step (method (objects h)).0 table least _ (λ l. least_of-answers table l _)

-- The least of a first number and some more.
Least : ℕ → List ℕ → Option ℕ → Type 0
Least a vs none = ⊥
Least a vs (some m) = ((m ≡ a) ⊎ OneOf m vs) × (slt64 a m ≡ false) × NoneBelow m vs

-- A number in front that is lower takes the first one's place, and one that is not changes nothing.
Least-lower :
    (a v : ℕ) (vs : List ℕ) (r : Option ℕ) → slt64 v a ≡ true → Least v vs r → Least a (v ∷ vs) r
unfolding Least
Least-lower a v vs none lower l = l
Least-lower a v vs (some m) lower l = (inr l.0, ground (arith, l.1), (l.1, l.2))

Least-kept :
    (a v : ℕ) (vs : List ℕ) (r : Option ℕ) → slt64 v a ≡ false → Least a vs r → Least a (v ∷ vs) r
unfolding Least
Least-kept a v vs none kept l = l
Least-kept a v vs (some m) kept l =
    (elim l.0 [ inl e ↦ inl e | inr o ↦ inr (inr o) ], l.1, (ground (arith, l.1), l.2))

least_from-Least : (a : ℕ) (vs : List ℕ) → Least a vs (least_from (some a) vs)
unfolding least_from earlier Least
least_from-Least a [] = (inl refl, ground arith, tt)
least_from-Least a (v ∷ vs) = elim (Bool-cases (slt64 v a)) [
  | inl lower ↦ rw lower (Least-lower a v vs _ lower (least_from-Least v vs))
  | inr kept ↦ rw kept (Least-kept a v vs _ kept (least_from-Least a vs))
]

-- The least number of a list, if it has one.
abbrev pub IsLeast : List ℕ → Option ℕ → Type 0
IsLeast vs none = vs ≡ []
IsLeast vs (some m) = OneOf m vs × NoneBelow m vs

Least-whole : (v : ℕ) (vs : List ℕ) (r : Option ℕ) → Least v vs r → IsLeast (v ∷ vs) r
unfolding Least
Least-whole v vs none l = absurd l
Least-whole v vs (some m) l = (l.0, (l.1, l.2))

least_from-IsLeast : (vs : List ℕ) → IsLeast vs (least_from none vs)
unfolding least_from earlier
least_from-IsLeast [] = refl
least_from-IsLeast (v ∷ vs) = Least-whole v vs _ (least_from-Least v vs)

-- What a method returns, from what its connections answer.
abbrev pub Reports : Option (List ℕ) → Answer (Option ℕ) → Type 0
Reports none (returned r) = ⊥
Reports none (thrown x) = Unit
Reports (some vs) (returned r) = IsLeast vs r
Reports (some vs) (thrown x) = ⊥

reports :
    (answered : Option (List ℕ)) (x : EndpointError) (end : Ran (Option ℕ))
    → found_by end ≡ scan none answered
    → Reports answered
        (elim end [ stopped ↦ thrown x | pending ↦ thrown of_connection | ran v ↦ returned v ])
reports none x stopped e = tt
reports none x pending e = tt
reports none x (ran v) e = cc
reports (some vs) x stopped e = cc
reports (some vs) x pending e = cc
reports (some vs) x (ran v) e = subst (IsLeast vs) (ground (arith, e)) (least_from-IsLeast vs)

module _ {H : Handler} where
  -- getNextExpiry of an endpoint throws exactly when the call of a connection's getNextExpiry fails
  -- or throws. Otherwise it returns null if no connection has a deadline, and else one of the
  -- connections' deadlines that none of them comes before; getNextTimeout does the same with their
  -- timeouts.
  pub deadline_is_least :
      (e : Endpoint H)
      → Reports (answers H H.get_next_expiry e.connections e.objects) (get_next_expiry e).0
        × Reports (answers H H.get_next_timeout e.connections e.objects) (get_next_timeout e).0
  unfolding get_next_expiry get_next_timeout
  deadline_is_least e = (
    reports _ _ _ (least_of-answers H H.get_next_expiry e.connections none e.objects),
    reports _ _ _ (least_of-answers H H.get_next_timeout e.connections none e.objects),
  )
