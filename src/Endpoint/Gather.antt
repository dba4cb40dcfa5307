-- ===== src/Endpoint/Gather.antt =====
-- The two drain methods of src/server_endpoint.c against those of the connections.
use ext_ngtcp.Prelude.{
  append-nil, ==_iff, Bytes, ℕ, ◌≡◌, refl, sym, ap, ◌∙◌, Bool, true, false, List, [], ◌∷◌, ◌++◌,
  arith, Bool-cases, inl, inr, if◌then◌else◌, ◌==◌, append_assoc,
}
use ext_ngtcp.Endpoint.State.{
  Dispatch, failed, raised, other, value, Ran, stopped, pending, ran, after_raise, of_connection,
  Handler, Endpoint, Table, Answer, returned, thrown, EndpointError, drain_dispatch_failed,
}
use ext_ngtcp.Endpoint.Methods.{
  collect, drain_events, drain_outgoing_datagrams, cleanup_connections,
}

-- The object with this handle is in the table.
unfoldable pub holds : ℕ → Table → Bool
holds i [] = false
holds i ((k, h) ∷ table) = if i == h then true else holds i table

-- No object is in the table twice.
unfoldable pub Apart : Table → Type 0
unfolding holds
Apart [] = Unit
Apart ((k, h) ∷ table) = (holds h table ≡ false) × Apart table

unfoldable items_of : {A : Type 0} → Dispatch (List A) → List A
items_of failed = []
items_of raised = []
items_of other = []
items_of (value items) = items

-- After a failed call, or one that has thrown, no other connection is called.
abbrev pub stops : {A : Type 0} → Dispatch A → Bool
stops failed = true
stops raised = true
stops other = false
stops (value a) = false

abbrev pub NotRan : {A : Type 0} → Ran A → Type 0
NotRan stopped = Unit
NotRan pending = Unit
NotRan (ran a) = ⊥

after_raise-NotRan : (A : Type 0) (b : Bool) (table : Table) → NotRan (after_raise {A = A} b table)
unfolding after_raise
after_raise-NotRan A b [] = tt
after_raise-NotRan A true (entry ∷ table) = tt
after_raise-NotRan A false (entry ∷ table) = tt

-- A method's answers and effects on the objects of a table, each in the state that `objects` has.
module _ (H : Handler) {A : Type 0} (method : H.Object → Dispatch (List A) × H.Object) where
  unfoldable pub gathered : Table → (ℕ → H.Object) → List A
  unfolding items_of
  gathered [] objects = []
  gathered ((k, h) ∷ table) objects = items_of (method (objects h)).0 ++ gathered table objects

  -- No call fails or throws.
  unfoldable pub all_return : Table → (ℕ → H.Object) → Bool
  all_return [] objects = true
  all_return ((k, h) ∷ table) objects =
      if stops (method (objects h)).0 then false else all_return table objects

  -- The entries up to the first whose call fails or throws, that one included.
  unfoldable pub called : Table → (ℕ → H.Object) → Table
  called [] objects = []
  called ((k, h) ∷ table) objects =
      (k, h) ∷ (if stops (method (objects h)).0 then [] else called table objects)

  abbrev pub effect : Table → (ℕ → H.Object) → ℕ → H.Object
  effect table objects i = if holds i table then (method (objects i)).1 else objects i

  -- What a run of the loop has found, and the objects after it.
  abbrev Collected : (ℕ → H.Object) → Bool → List A → Table → Ran (List A) × (ℕ → H.Object) → Type 0
  Collected objects good items reached found =
      ((i : ℕ) → found.1 i ≡ effect reached objects i)
      × (good ≡ true → found.0 ≡ ran items)
      × (good ≡ false → NotRan found.0)

  same-gathered :
      (table : Table) (f g : ℕ → H.Object)
      → ((i : ℕ) → holds i table ≡ true → f i ≡ g i)
      → (gathered table f ≡ gathered table g)
        × (all_return table f ≡ all_return table g)
        × (called table f ≡ called table g)
  unfolding gathered all_return called holds
  same-gathered [] f g h = (refl, refl, refl)
  same-gathered ((k, j) ∷ table) f g h =
      let here : f j ≡ g j = h j (ground arith) in
      let rest = same-gathered table f g (λ i held. h i (ground arith)) in
      (
        ap (λ o. items_of (method o).0 ++ gathered table f) here
            ∙ ap (λ r. items_of (method (g j)).0 ++ r) rest.0,
        ap (λ o. if stops (method o).0 then false else all_return table f) here
            ∙ ap (λ r. if stops (method (g j)).0 then false else r) rest.1,
        ap (λ o. (k, j) ∷ (if stops (method o).0 then [] else called table f)) here
            ∙ ap (λ r. (k, j) ∷ (if stops (method (g j)).0 then [] else r)) rest.2,
      )

  called-holds :
      (h : ℕ) (table : Table) (objects : ℕ → H.Object)
      → holds h table ≡ false
      → holds h (called table objects) ≡ false
  unfolding called holds
  called-holds h [] objects apart = refl
  called-holds h ((k, j) ∷ table) objects apart = elim (Bool-cases (stops (method (objects j)).0)) [
    | inl e ↦ rw e (ground arith)
    | inr e ↦ rw e (ground (arith, called-holds h table objects))
  ]

  collect_step :
      (r : Dispatch (List A)) (entry : Bytes × ℕ) (table : Table) (acc : List A)
      (objects objects' : ℕ → H.Object)
      → ((i : ℕ) → objects' i ≡ effect (entry ∷ []) objects i)
      → ((acc' : List A)
          → Collected objects
              (all_return table objects)
              (acc' ++ gathered table objects)
              (entry ∷ called table objects)
              (collect H method table acc' objects'))
      → Collected objects
          (if stops r then false else all_return table objects)
          (acc ++ (items_of r ++ gathered table objects))
          (entry ∷ (if stops r then [] else called table objects))
          (elim r [
            | failed ↦ (stopped, objects')
            | raised ↦ (after_raise H.fails_while_pending table, objects')
            | other ↦ collect H method table acc objects'
            | value items ↦ collect H method table (acc ++ items) objects'
          ])
  unfolding items_of
  collect_step failed entry table acc objects objects' one ih = (one, (λ e. cc), λ e. tt)
  collect_step raised entry table acc objects objects' one ih =
      (one, (λ e. cc), λ e. after_raise-NotRan (List A) H.fails_while_pending table)
  collect_step other entry table acc objects objects' one ih = ih acc
  collect_step (value items) entry table acc objects objects' one ih =
      let found = ih (acc ++ items) in
      (
        found.0,
        (λ e. found.1 e ∙ ap ran (append_assoc acc items (gathered table objects))),
        found.2,
      )

  others-same :
      (table : Table) (h : ℕ) (o : H.Object) (objects : ℕ → H.Object)
      → holds h table ≡ false
      → (i : ℕ) → holds i table ≡ true
      → objects i ≡ (if i == h then o else objects i)
  others-same table h o objects apart i held = elim (Bool-cases (i == h)) [
    | inl e ↦ ground (arith, ap (λ j. holds j table) ((==_iff i h).0 e))
    | inr e ↦ rw e refl
  ]

  effect_step :
      (k : Bytes) (h : ℕ) (table : Table) (objects : ℕ → H.Object)
      → holds h table ≡ false
      → (i : ℕ)
      → effect table (λ j. if j == h then (method (objects h)).1 else objects j) i
        ≡ effect ((k, h) ∷ table) objects i
  unfolding holds
  effect_step k h table objects apart i = elim (Bool-cases (i == h)) [
    | inl e ↦
        rw (e, ap (λ j. holds j table) ((==_iff i h).0 e) ∙ apart)
          (ap (λ j. (method (objects j)).1) (sym ((==_iff i h).0 e)))
    | inr e ↦ rw e refl
  ]

  collect-Collected :
      (table : Table) (acc : List A) (objects : ℕ → H.Object)
      → Apart table
      → Collected objects
          (all_return table objects)
          (acc ++ gathered table objects)
          (called table objects)
          (collect H method table acc objects)
  unfolding collect gathered all_return called Apart holds
  collect-Collected [] acc objects apart =
      ((λ i. refl), (λ e. ap ran (sym (append-nil acc))), λ e. cc)
  collect-Collected ((k, h) ∷ table) acc objects apart =
      let o = (method (objects h)).1 in
      let objects' : ℕ → H.Object = λ i. if i == h then o else objects i in
      let same = same-gathered table objects objects' (others-same table h o objects apart.0) in
      collect_step (method (objects h)).0 (k, h) table acc objects objects'
        (λ i. effect_step k h [] objects refl i)
        (λ acc'.
          let ih = collect-Collected table acc' objects' apart.1 in
          (
            (λ i.
                ih.0 i
                ∙ ap (λ t. effect t objects' i) (sym same.2)
                ∙ effect_step k h (called table objects) objects
                    (called-holds h table objects apart.0) i),
            (λ e. ih.1 (sym same.1 ∙ e) ∙ ap (λ r. ran (acc' ++ r)) (sym same.0)),
            λ e. ih.2 (sym same.1 ∙ e),
          ))

-- What a drain method of an endpoint answers and leaves, by the method of its connections.
abbrev pub Drains :
    {H : Handler} {A : Type 0}
    → (H.Object → Dispatch (List A) × H.Object)
    → Endpoint H
    → Answer (List A) × Endpoint H
    → Type 0
Drains {H} method e (answer, e') =
    ((i : ℕ) → e'.objects i ≡ effect H method (called H method e.connections e.objects) e.objects i)
    × (all_return H method e.connections e.objects ≡ true
        → answer ≡ returned (gathered H method e.connections e.objects))
    × (all_return H method e.connections e.objects ≡ false
        → (x : EndpointError) × (answer ≡ thrown x))

module _ {H : Handler} where
  answer_of :
      {A : Type 0} (end : Ran (List A)) (x : EndpointError) (e : Endpoint H)
      → let r : Answer (List A) × Endpoint H = elim end [
        | stopped ↦ (thrown x, e)
        | pending ↦ (thrown of_connection, cleanup_connections e)
        | ran found ↦ (returned found, cleanup_connections e)
      ] in
        ((i : ℕ) → r.1.objects i ≡ e.objects i)
        × ((all : List A) → end ≡ ran all → r.0 ≡ returned all)
        × (NotRan end → (y : EndpointError) × (r.0 ≡ thrown y))
  unfolding cleanup_connections
  answer_of stopped x e = ((λ i. refl), (λ all same. cc), λ n. (x, refl))
  answer_of pending x e = ((λ i. refl), (λ all same. cc), λ n. (of_connection, refl))
  answer_of (ran found) x e = ((λ i. refl), (λ all same. cc), λ n. absurd n)

  -- In a table without a repeated object drainEvents of an endpoint calls the connections in the
  -- table's order, up to the first whose own drainEvents fails or throws. Each of these is left
  -- as one call on the state that it had before leaves it, and all other objects as they are. If no
  -- call fails or throws, it returns the events of all connections, those of one connection in
  -- their order and the connections in the table's order; otherwise it throws.
  pub events_gathered :
      (e : Endpoint H) → Apart e.connections → Drains H.drain_events e (drain_events e)
  unfolding drain_events
  events_gathered e apart =
      let end = collect H H.drain_events e.connections [] e.objects in
      let found = collect-Collected H H.drain_events e.connections [] e.objects apart in
      let answer = answer_of end.0 drain_dispatch_failed (record e { objects = end.1 }) in
      ((λ i. answer.0 i ∙ found.0 i), (λ e. answer.1 _ (found.1 e)), λ e. answer.2 (found.2 e))

  -- In a table without a repeated object drainOutgoingDatagrams of an endpoint calls the
  -- connections in the table's order, up to the first whose own drainOutgoingDatagrams fails or
  -- throws. Each of these is left as one call on the state that it had before leaves it, and all
  -- other objects as they are. If no call fails or throws, it returns the datagrams of all
  -- connections, those of one connection in their order and the connections in the table's order;
  -- otherwise it throws.
  pub datagrams_gathered :
      (e : Endpoint H)
      → Apart e.connections
      → Drains H.drain_outgoing_datagrams e (drain_outgoing_datagrams e)
  unfolding drain_outgoing_datagrams
  datagrams_gathered e apart =
      let end = collect H H.drain_outgoing_datagrams e.connections [] e.objects in
      let found = collect-Collected H H.drain_outgoing_datagrams e.connections [] e.objects apart in
      let answer = answer_of end.0 drain_dispatch_failed (record e { objects = end.1 }) in
      ((λ i. answer.0 i ∙ found.0 i), (λ e. answer.1 _ (found.1 e)), λ e. answer.2 (found.2 e))
