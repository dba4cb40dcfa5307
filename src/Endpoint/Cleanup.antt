-- ===== src/Endpoint/Cleanup.antt =====
-- What php_quic_server_endpoint_cleanup_connections of src/server_endpoint.c removes.
use ext_ngtcp.Prelude.{
  ℕ, ◌≡◌, refl, sym, ap, ◌∙◌, subst, true, false, none, List, [], ◌∷◌, Bytes, arith, if◌then◌else◌,
  bytes_eq, bytes_eq_iff, if_rule, Bool-cases, inl, inr,
}
use ext_ngtcp.Endpoint.State.{Handler, Endpoint, Table, hash_find, hash_del}
use ext_ngtcp.Endpoint.Methods.{is_removable, remove_keys, delete_all, cleanup_connections}

-- No key stands twice in the table.
unfoldable pub Distinct : Table → Type 0
Distinct [] = Unit
Distinct ((k, h) ∷ table) = (hash_find k table ≡ none) × Distinct table

Absent : Bytes → List Bytes → Type 0
Absent k [] = Unit
Absent k (j ∷ keys) = (bytes_eq j k ≡ false) × Absent k keys

-- The entries whose connection is not removable, in their order.
unfoldable pub survivors : (H : Handler) → (ℕ → H.Object) → Table → Table
survivors H objects [] = []
survivors H objects ((k, h) ∷ table) =
    let rest = survivors H objects table in
    if is_removable H (objects h) then rest else (k, h) ∷ rest

pub bytes_eq-sym : (xs ys : Bytes) → bytes_eq xs ys ≡ bytes_eq ys xs
unfolding bytes_eq
bytes_eq-sym [] [] = refl
bytes_eq-sym [] (b ∷ ys) = refl
bytes_eq-sym (a ∷ xs) [] = refl
bytes_eq-sym (a ∷ xs) (b ∷ ys) = ground (arith, bytes_eq-sym xs ys)

delete_all_cons :
    (keys : List Bytes) (k : Bytes) (h : ℕ) (table : Table)
    → Absent k keys
    → delete_all keys ((k, h) ∷ table) ≡ (k, h) ∷ delete_all keys table
unfolding delete_all hash_del Absent
delete_all_cons [] k h table a = refl
delete_all_cons (j ∷ keys) k h table a =
    rw (bytes_eq-sym k j) (rw a.0 (delete_all_cons keys k h (hash_del j table) a.1))

pub find_not :
    (k j : Bytes) (i : ℕ) (table : Table)
    → hash_find k ((j, i) ∷ table) ≡ none
    → (bytes_eq j k ≡ false) × (hash_find k table ≡ none)
unfolding hash_find
find_not k j i table h = ground arith

remove_keys-Absent :
    (H : Handler) (objects : ℕ → H.Object) (k : Bytes) (table : Table)
    → hash_find k table ≡ none
    → Absent k (remove_keys H objects table)
unfolding remove_keys Absent
remove_keys-Absent H objects k [] h = tt
remove_keys-Absent H objects k ((j, i) ∷ table) h =
    let apart = find_not k j i table h in
    if_rule (Absent k) (is_removable H (objects i)) _ _
      (λ _. (apart.0, remove_keys-Absent H objects k table apart.1))
      (λ _. remove_keys-Absent H objects k table apart.1)

pub bytes_eq_self : (k : Bytes) → bytes_eq k k ≡ true
bytes_eq_self k = (bytes_eq_iff k k).1 refl

delete_head : (k : Bytes) (h : ℕ) (table : Table) → hash_del k ((k, h) ∷ table) ≡ table
unfolding hash_del
delete_head k h table = ground (arith, bytes_eq_self k)

pub delete_all-survivors :
    (H : Handler) (objects : ℕ → H.Object) (table : Table)
    → Distinct table
    → delete_all (remove_keys H objects table) table ≡ survivors H objects table
unfolding remove_keys delete_all survivors Distinct hash_del
delete_all-survivors H objects [] d = refl
delete_all-survivors H objects ((k, h) ∷ table) d = elim (Bool-cases (is_removable H (objects h))) [
  | inl gone ↦ rw gone (
      ap (delete_all (remove_keys H objects table)) (delete_head k h table)
      ∙ delete_all-survivors H objects table d.1)
  | inr kept ↦ rw kept (
      delete_all_cons (remove_keys H objects table) k h table
        (remove_keys-Absent H objects k table d.0)
      ∙ ap (◌∷◌ (k, h)) (delete_all-survivors H objects table d.1))
]

survivors_find :
    (H : Handler) (objects : ℕ → H.Object) (j : Bytes) (table : Table)
    → hash_find j table ≡ none
    → hash_find j (survivors H objects table) ≡ none
unfolding survivors hash_find
survivors_find H objects j [] h = refl
survivors_find H objects j ((k, i) ∷ table) h = ground (arith, survivors_find H objects j table)

pub survivors-Distinct :
    (H : Handler) (objects : ℕ → H.Object) (table : Table)
    → Distinct table
    → Distinct (survivors H objects table)
unfolding survivors Distinct
survivors-Distinct H objects [] d = tt
survivors-Distinct H objects ((k, h) ∷ table) d =
    if_rule Distinct (is_removable H (objects h)) _ _ (λ _. survivors-Distinct H objects table d.1)
      (λ _. (survivors_find H objects k table d.0, survivors-Distinct H objects table d.1))

module _ {H : Handler} where
  -- In a table without a repeated key, the clean-up takes out exactly the connections that are
  -- closed and have sent the close packet that they were asked for, if they were; all others stay,
  -- in their order, and no key is repeated afterwards. Objects, accepted queue and configuration
  -- stay.
  pub cleanup_lem :
      (e : Endpoint H)
      → Distinct e.connections
      → (cleanup_connections e ≡ record e { connections = survivors H e.objects e.connections })
        × Distinct (cleanup_connections e).connections
  unfolding cleanup_connections
  cleanup_lem e d =
      let same = delete_all-survivors H e.objects e.connections d in
      (
        ap (λ t. record e { connections = t }) same,
        subst Distinct (sym same) (survivors-Distinct H e.objects e.connections d),
      )
