-- ===== src/Endpoint/Others.antt =====
-- What a call of an endpoint of src/server_endpoint.c does to objects that its table does not have.
use ext_ngtcp.Prelude.{
  ℕ, ◌≡◌, refl, ap, ◌∙◌, false, Option, some, List, [], ◌∷◌, ◌++◌, Bytes, arith, if◌then◌else◌,
  ◌==◌, ==_iff, Bool-cases, inl, inr,
}
use ext_ngtcp.Endpoint.State.{Dispatch, Ran, Handler, Table, hash_find, dispatch_rule}
use ext_ngtcp.Endpoint.Methods.{call_each, least_of, collect, earlier}
use ext_ngtcp.Endpoint.Gather.{holds}
use ext_ngtcp.Endpoint.Tables.{find-holds}

-- A loop over a table that does not have h leaves the object of h alone.
module _ (H : Handler) (h : ℕ) where
  updated_other :
      (i : ℕ) (o : H.Object) (objects : ℕ → H.Object) (table : Table) (k : Bytes)
      → holds h ((k, i) ∷ table) ≡ false
      → ((if h == i then o else objects h) ≡ objects h) × (holds h table ≡ false)
  unfolding holds
  updated_other i o objects table k apart = (ground arith, ground arith)

  pub call_each-other :
      (method : H.Object → Dispatch (Unit {0}) × H.Object) (table : Table) (objects : ℕ → H.Object)
      → holds h table ≡ false
      → (call_each H method table objects).1 h ≡ objects h
  unfolding call_each
  call_each-other method [] objects apart = refl
  call_each-other method ((k, i) ∷ table) objects apart =
      let o = (method (objects i)).1 in
      let here = updated_other i o objects table k apart in
      let rest =
        call_each-other method table (λ j. if j == i then o else objects j) here.1 ∙ here.0 in
      dispatch_rule (λ (r : Ran (Unit {0}) × (ℕ → H.Object)). r.1 h ≡ objects h)
        (method (objects i)).0 _ _ _ _ (λ _. here.0) (λ _. here.0) (λ _. rest) (λ _ _. rest)

  pub least_of-other :
      (method : H.Object → Dispatch ℕ × H.Object) (table : Table) (least : Option ℕ)
      (objects : ℕ → H.Object)
      → holds h table ≡ false
      → (least_of H method table least objects).1 h ≡ objects h
  unfolding least_of
  least_of-other method [] least objects apart = refl
  least_of-other method ((k, i) ∷ table) least objects apart =
      let o = (method (objects i)).1 in
      let here = updated_other i o objects table k apart in
      let objects' : ℕ → H.Object = λ j. if j == i then o else objects j in
      dispatch_rule (λ (r : Ran (Option ℕ) × (ℕ → H.Object)). r.1 h ≡ objects h)
        (method (objects i)).0 _ _ _ _ (λ _. here.0) (λ _. here.0)
        (λ _. least_of-other method table least objects' here.1 ∙ here.0)
        (λ v _. least_of-other method table (earlier least v) objects' here.1 ∙ here.0)

  pub collect-other :
      {A : Type 0} (method : H.Object → Dispatch (List A) × H.Object) (table : Table) (acc : List A)
      (objects : ℕ → H.Object)
      → holds h table ≡ false
      → (collect H method table acc objects).1 h ≡ objects h
  unfolding collect
  collect-other method [] acc objects apart = refl
  collect-other {A} method ((k, i) ∷ table) acc objects apart =
      let o = (method (objects i)).1 in
      let here = updated_other i o objects table k apart in
      let objects' : ℕ → H.Object = λ j. if j == i then o else objects j in
      dispatch_rule (λ (r : Ran (List A) × (ℕ → H.Object)). r.1 h ≡ objects h)
        (method (objects i)).0 _ _ _ _ (λ _. here.0) (λ _. here.0)
        (λ _. collect-other method table acc objects' here.1 ∙ here.0)
        (λ items _. collect-other method table (acc ++ items) objects' here.1 ∙ here.0)

-- What is found in the table is another object.
pub found_other :
    (h : ℕ) (key : Bytes) (i : ℕ) (table : Table)
    → holds h table ≡ false
    → hash_find key table ≡ some i
    → (h == i) ≡ false
found_other h key i table apart found = elim (Bool-cases (h == i)) [
  | inl same ↦ ground (arith, find-holds key i table, ap (λ x. holds x table) ((==_iff h i).0 same))
  | inr other ↦ other
]
