-- ===== src/Stream/Counts.antt =====
-- The counts of the references to connection objects of src/stream.c.
use ext_ngtcp.Prelude.{
  ℕ, ◌+◌, ◌-◌, ◌<◌, ◌≡◌, refl, sym, ap, ◌∙◌, true, false, Option, none, some, List, [], ◌∷◌, ◌++◌,
  arith, leb, ltb, ◌==◌, ==_iff, if◌then◌else◌, if_rule, option_rule, Bool-cases, inl, inr,
  positive64, not,
}
use ext_ngtcp.Platform.{Platform}
use ext_ngtcp.Connection.State.{Connection}
use ext_ngtcp.Stream.Object.{
  Slot, vacant, live, freed, free, Heap, StreamObject, store, add_reference, release, create,
  on_live, on_connection, read, resolve_connection,
}
use ext_ngtcp.Stream.World.{World, is_live, refers, count}

-- The references that the engine has counted are those that there are, and what is in memory is what
-- has one.
abbrev pub Counted : {P : Platform} → World P → Type 0
Counted w =
    (i : ℕ)
    → (w.heap.references i ≡ w.held i + count i w.streams)
      × (is_live (w.heap.objects i) ≡ ltb 0 (w.heap.references i))

-- The references and what is in memory are as before.
abbrev pub Kept : {P : Platform} → Heap P → Heap P → Type 0
Kept h h' =
    (i : ℕ) → (h'.references i ≡ h.references i) × (is_live (h'.objects i) ≡ is_live (h.objects i))

pub count-append :
    (i : ℕ) (before after : List StreamObject)
    → count i (before ++ after) ≡ count i before + count i after
unfolding count
count-append i [] after = omega arith
count-append i (s ∷ before) after = omega (arith, count-append i before after)

pub count-cons :
    (i : ℕ) (before after : List StreamObject) (s : StreamObject)
    → count i (before ++ s ∷ after) ≡ refers i s.connection + count i (before ++ after)
unfolding count
count-cons i before after s =
    omega (arith, count-append i before after, count-append i before (s ∷ after))

module _ {P : Platform} where
  pub Kept-Counted :
      (w : World P) (h : Heap P) → Kept w.heap h → Counted w → Counted (record w { heap = h })
  Kept-Counted w h kept ok i = ground (arith, kept i, ok i)

  stored-Kept :
      (i : ℕ) (c c' : Connection P) (h : Heap P)
      → h.objects i ≡ live c
      → Kept h (store h i (live c'))
  stored-Kept i c c' h e j = (
    refl,
    if_rule (λ slot. is_live slot ≡ is_live (h.objects j)) (j == i) _ _
        (λ same.
          sym (ap (λ k. is_live (h.objects k)) ((==_iff j i).0 same) ∙ ap (λ slot. is_live slot) e))
        (λ _. refl),
  )

  -- After a method that has met the object in memory.
  abbrev pub Keeps : {A : Type 0} → Heap P → Option (A × Heap P) → Type 0
  Keeps h none = Unit
  Keeps h (some (a, h')) = Kept h h'

  slot_rule :
      {A : Type 0} (Q : A → Type 0) (slot : Slot P) (x y : A) (f : Connection P → A)
      → Q x
      → Q y
      → ((c : Connection P) → slot ≡ live c → Q (f c))
      → Q (elim slot [ vacant ↦ x | live c ↦ f c | freed c ↦ y ])
  slot_rule Q vacant x y f p q k = p
  slot_rule Q (live c) x y f p q k = k c refl
  slot_rule Q (freed c) x y f p q k = q

  pub on_live-Keeps :
      {A : Type 0} (i : ℕ) (method : Connection P → A × Connection P) (h : Heap P)
      → Keeps h (on_live i method h)
  unfolding on_live
  on_live-Keeps i method h =
      slot_rule (Keeps h) (h.objects i) none none _ tt tt λ c e. stored-Kept i c (method c).1 h e

  pub on_connection-Keeps :
      {A : Type 0} (s : StreamObject) (absent : A) (method : Connection P → A × Connection P)
      (h : Heap P)
      → Keeps h (on_connection s absent method h)
  unfolding on_connection
  on_connection-Keeps s absent method h =
      option_rule (Keeps h) (resolve_connection s) _ _ (λ _ i. (refl, refl))
        λ i _. on_live-Keeps i method h

  pub read-Keeps : (n : ℕ) (s : StreamObject) (h : Heap P) → Keeps h (read n s h)
  unfolding read
  read-Keeps n s h =
      if_rule (Keeps h) (not (positive64 n)) _ _ (λ _ i. (refl, refl))
        (λ _. on_connection-Keeps s _ _ h)

  pub live_of-Counted :
      (w : World P) (i : ℕ) → Counted w → 0 < w.held i → is_live (w.heap.objects i) ≡ true
  live_of-Counted w i ok holds = ground (arith, ok i)

  -- A new stream object.
  pub added-Counted :
      (w : World P) (i stream_id : ℕ)
      → Counted w
      → 0 < w.held i
      → let r = create i stream_id w.heap in
        Counted (record w { heap = r.1; streams = r.0 ∷ w.streams })
  unfolding create add_reference count
  added-Counted w i stream_id ok holds j = elim (Bool-cases (j == i)) [
    | inl same ↦
        let eq : j ≡ i = (==_iff j i).0 same in
        let live_here = live_of-Counted w i ok holds in
        rw same (ground (arith, ok j, ok i, eq, live_here))
    | inr apart ↦ rw apart (ground (arith, ok j))
  ]

  freed_dead : (slot : Slot P) → is_live (free slot) ≡ false
  freed_dead vacant = refl
  freed_dead (live c) = refl
  freed_dead (freed c) = refl

  pub released-Counted :
      (w : World P) (i : ℕ) (held : ℕ → ℕ) (streams : List StreamObject)
      → Counted w
      → ((j : ℕ)
          → held j + count j streams ≡ (w.held j + count j w.streams) - (if j == i then 1 else 0))
      → 0 < w.held i + count i w.streams
      → Counted (record { heap = release i w.heap; held = held; streams = streams })
  unfolding release
  released-Counted w i held streams ok fewer some_ j =
      elim (Bool-cases (leb (w.heap.references i) 1)) [
        | inl last ↦ elim (Bool-cases (j == i)) [
          | inl same ↦
              let eq : j ≡ i = (==_iff j i).0 same in
              let dead = freed_dead (w.heap.objects i) in
              rw (last, same) (ground (arith, ok i, fewer j, dead, eq))
          | inr apart ↦ rw (last, apart) (ground (arith, ok j, fewer j))
        ]
        | inr more ↦ elim (Bool-cases (j == i)) [
          | inl same ↦
              let eq : j ≡ i = (==_iff j i).0 same in
              rw (more, same) (ground (arith, ok i, fewer j, eq))
          | inr apart ↦ rw (more, apart) (ground (arith, ok j, fewer j))
        ]
      ]
