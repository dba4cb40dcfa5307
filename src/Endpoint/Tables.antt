-- ===== src/Endpoint/Tables.antt =====
-- The hash table of src/server_endpoint.c: what an update and a clean-up keep.
use ext_ngtcp.Prelude.{
  true, ==_iff, ap, ℕ, ◌≡◌, ◌<◌, ◌+◌, refl, ◌∙◌, false, none, some, [], ◌∷◌, Bytes, arith, bytes_eq,
  bytes_eq_refl, if_rule, ◌==◌, Bool-cases, inl, inr,
}
use ext_ngtcp.Endpoint.State.{Handler, Table, hash_find, hash_update}
use ext_ngtcp.Endpoint.Methods.{is_removable}
use ext_ngtcp.Endpoint.Cleanup.{Distinct, survivors, bytes_eq-sym}
use ext_ngtcp.Endpoint.Gather.{holds, Apart}

-- Every handle in the table is lower than n.
unfoldable pub Below : ℕ → Table → Type 0
Below n [] = Unit
Below n ((k, h) ∷ table) = (h < n) × Below n table

-- No key and no object is in the table twice, and every object in it has been made.
abbrev pub TidyTable : ℕ → Table → Type 0
TidyTable n table = Distinct table × Apart table × Below n table

pub find-update : (k : Bytes) (h : ℕ) (table : Table) → hash_find k (hash_update k h table) ≡ some h
unfolding hash_find hash_update
find-update k h [] = ground (arith, bytes_eq_refl k)
find-update k h ((j, i) ∷ table) = ground (arith, find-update k h table)

pub find_other :
    (k j : Bytes) (h : ℕ) (table : Table)
    → bytes_eq k j ≡ false
    → hash_find j table ≡ none
    → hash_find j (hash_update k h table) ≡ none
unfolding hash_find hash_update
find_other k j h [] apart free = ground (arith, apart)
find_other k j h ((l, i) ∷ table) apart free = ground (arith, find_other k j h table apart)

pub update-Distinct :
    (k : Bytes) (h : ℕ) (table : Table) → Distinct table → Distinct (hash_update k h table)
unfolding hash_update Distinct hash_find
update-Distinct k h [] d = (refl, tt)
update-Distinct k h ((j, i) ∷ table) d = elim (Bool-cases (bytes_eq j k)) [
  | inl same ↦ rw same d
  | inr apart ↦
      rw apart
        (find_other k j h table (bytes_eq-sym k j ∙ apart) d.0, update-Distinct k h table d.1)
]

pub survivors-find :
    (H : Handler) (objects : ℕ → H.Object) (k : Bytes) (h : ℕ) (table : Table)
    → is_removable H (objects h) ≡ false
    → hash_find k table ≡ some h
    → hash_find k (survivors H objects table) ≡ some h
unfolding survivors hash_find
survivors-find H objects k h [] stays found = found
survivors-find H objects k h ((j, i) ∷ table) stays found =
    ground (arith, survivors-find H objects k h table stays)

pub Below-holds : (n : ℕ) (table : Table) → Below n table → holds n table ≡ false
unfolding Below holds
Below-holds n [] b = refl
Below-holds n ((k, h) ∷ table) b = ground (arith, Below-holds n table b.1)

pub survivors-holds :
    (H : Handler) (objects : ℕ → H.Object) (i : ℕ) (table : Table)
    → holds i table ≡ false
    → holds i (survivors H objects table) ≡ false
unfolding survivors holds
survivors-holds H objects i [] h = refl
survivors-holds H objects i ((k, j) ∷ table) h = ground (arith, survivors-holds H objects i table)

pub survivors-Apart :
    (H : Handler) (objects : ℕ → H.Object) (table : Table)
    → Apart table
    → Apart (survivors H objects table)
unfolding survivors Apart
survivors-Apart H objects [] a = tt
survivors-Apart H objects ((k, h) ∷ table) a =
    if_rule Apart (is_removable H (objects h)) _ _ (λ _. survivors-Apart H objects table a.1)
      (λ _. (survivors-holds H objects h table a.0, survivors-Apart H objects table a.1))

pub survivors-Below :
    (H : Handler) (objects : ℕ → H.Object) (n : ℕ) (table : Table)
    → Below n table
    → Below n (survivors H objects table)
unfolding survivors Below
survivors-Below H objects n [] b = tt
survivors-Below H objects n ((k, h) ∷ table) b =
    if_rule (Below n) (is_removable H (objects h)) _ _ (λ _. survivors-Below H objects n table b.1)
      (λ _. (b.0, survivors-Below H objects n table b.1))

pub update-holds :
    (i : ℕ) (k : Bytes) (h : ℕ) (table : Table)
    → (i == h) ≡ false
    → holds i table ≡ false
    → holds i (hash_update k h table) ≡ false
unfolding hash_update holds
update-holds i k h [] e f = ground arith
update-holds i k h ((j, l) ∷ table) e f = ground (arith, update-holds i k h table e)

pub update-Apart :
    (k : Bytes) (n : ℕ) (table : Table)
    → Below n table
    → Apart table
    → Apart (hash_update k n table)
unfolding hash_update Apart Below holds
update-Apart k n [] b a = (refl, tt)
update-Apart k n ((j, i) ∷ table) b a =
    if_rule Apart (bytes_eq j k) _ _ (λ _. (Below-holds n table b.1, a.1))
      (λ _. (update-holds i k n table (ground (arith, b.0)) a.0, update-Apart k n table b.1 a.1))

pub Below-suc : (n : ℕ) (table : Table) → Below n table → Below (n + 1) table
unfolding Below
Below-suc n [] b = tt
Below-suc n ((k, h) ∷ table) b = (omega (arith, b.0), Below-suc n table b.1)

pub update-Below :
    (k : Bytes) (n : ℕ) (table : Table) → Below n table → Below (n + 1) (hash_update k n table)
unfolding hash_update Below
update-Below k n [] b = (omega arith, tt)
update-Below k n ((j, i) ∷ table) b =
    if_rule (Below (n + 1)) (bytes_eq j k) _ _ (λ _. (omega arith, Below-suc n table b.1))
      (λ _. (omega (arith, b.0), update-Below k n table b.1))

-- A handle that is found is held.
pub find-holds :
    (k : Bytes) (h : ℕ) (table : Table) → hash_find k table ≡ some h → holds h table ≡ true
unfolding hash_find holds
find-holds k h [] found = cc
find-holds k h ((j, i) ∷ table) found = ground (arith, find-holds k h table)

-- The clean-up takes out a handle whose object is removable.
pub survivors-holds_removable :
    (H : Handler) (objects : ℕ → H.Object) (h : ℕ) (table : Table)
    → is_removable H (objects h) ≡ true
    → holds h (survivors H objects table) ≡ false
unfolding survivors holds
survivors-holds_removable H objects h [] gone = refl
survivors-holds_removable H objects h ((j, i) ∷ table) gone =
    if_rule (λ t. holds h t ≡ false) (is_removable H (objects i)) _ _
      (λ _. survivors-holds_removable H objects h table gone)
      λ stays. elim (Bool-cases (h == i)) [
        | inl same ↦ ground (arith, ap (λ x. is_removable H (objects x)) ((==_iff h i).0 same))
        | inr apart ↦ rw apart (survivors-holds_removable H objects h table gone)
      ]

pub find-lt :
    (k : Bytes) (n h : ℕ) (table : Table) → Below n table → hash_find k table ≡ some h → h < n
unfolding hash_find Below
find-lt k n h [] b found = cc
find-lt k n h ((j, i) ∷ table) b found = ground (arith, b.0, find-lt k n h table b.1)
