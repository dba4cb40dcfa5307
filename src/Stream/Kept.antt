-- ===== src/Stream/Kept.antt =====
-- The counts of the references along what a script does with the objects of src/stream.c.
use ext_ngtcp.Prelude.{
  ℕ, ◌+◌, ◌-◌, ◌<◌, ◌≡◌, refl, subst, ap, ◌∙◌, false, Option, none, some, List, ◌∷◌, ◌++◌, arith,
  ◌==◌, ==_iff, if◌then◌else◌, Bool-cases, inl, inr,
}
use ext_ngtcp.Platform.{Platform}
use ext_ngtcp.Address.{Zval, undef, null, object}
use ext_ngtcp.Exceptions.{Result, returned, thrown}
use ext_ngtcp.Connection.State.{Connection}
use ext_ngtcp.Stream.Object.{
  vacant, live, free, Heap, StreamObject, store, set_references, add_reference, free_object, write,
  end, reset, hand_out, opened_on, open_stream, open_uni_stream, found_on, get_stream,
}
use ext_ngtcp.Stream.World.{
  World, is_live, refers, count, given, got, set, Step, makes, copies, forgets, calls, opens,
  opens_uni, gets, reads, writes, ends, resets, drops, Reach, start, step,
}
use ext_ngtcp.Stream.Counts.{
  Counted, Keeps, count-cons, Kept-Counted, on_live-Keeps, on_connection-Keeps, read-Keeps,
  added-Counted, released-Counted,
}

zval_rule :
    {B : Type 0} (Q : B → Type 0) (z : Zval ℕ) (x y : B) (f : ℕ → B)
    → (z ≡ undef → Q x)
    → (z ≡ null → Q y)
    → ((i : ℕ) → z ≡ object i → Q (f i))
    → Q (elim z [ undef ↦ x | null ↦ y | object i ↦ f i ])
zval_rule Q undef x y f p q k = p refl
zval_rule Q null x y f p q k = q refl
zval_rule Q (object i) x y f p q k = k i refl

module _ {P : Platform} where
  -- After a method that gives out a stream object.
  abbrev Opened : World P → Option (Result StreamObject × Heap P) → Type 0
  Opened w none = Unit
  Opened w (some (r, h)) = Counted (record w { heap = h; streams = given r ++ w.streams })

  opened_on-Opened :
      (w : World P) (i : ℕ) (o : Option (Result ℕ × Heap P))
      → Counted w
      → 0 < w.held i
      → Keeps w.heap o
      → Opened w (opened_on i o)
  unfolding opened_on hand_out
  opened_on-Opened w i none ok holds kept = tt
  opened_on-Opened w i (some (returned stream_id, h)) ok holds kept =
      added-Counted (record w { heap = h }) i stream_id (Kept-Counted w h kept ok) holds
  opened_on-Opened w i (some (thrown x, h)) ok holds kept = Kept-Counted w h kept ok

  abbrev Found : World P → Option (Option StreamObject × Heap P) → Type 0
  Found w none = Unit
  Found w (some (r, h)) = Counted (record w { heap = h; streams = got r ++ w.streams })

  found_on-Found :
      (w : World P) (i : ℕ) (o : Option (Option ℕ × Heap P))
      → Counted w
      → 0 < w.held i
      → Keeps w.heap o
      → Found w (found_on i o)
  unfolding found_on
  found_on-Found w i none ok holds kept = tt
  found_on-Found w i (some (some stream_id, h)) ok holds kept =
      added-Counted (record w { heap = h }) i stream_id (Kept-Counted w h kept ok) holds
  found_on-Found w i (some (none, h)) ok holds kept = Kept-Counted w h kept ok

  -- After a method of a stream object.
  done-Counted :
      {A : Type 0} (w : World P) (o : Option (A × Heap P)) (a : A) (h : Heap P)
      → Counted w
      → Keeps w.heap o
      → o ≡ some (a, h)
      → Counted (record w { heap = h })
  done-Counted w o a h ok kept e = Kept-Counted w h (subst (Keeps w.heap) e kept) ok

  makes-Counted :
      (w : World P) (i : ℕ) (c : Connection P)
      → w.heap.objects i ≡ vacant
      → Counted w
      → Counted
          (record w { heap = set_references (store w.heap i (live c)) i 1; held = set i 1 w.held })
  makes-Counted w i c free ok j = elim (Bool-cases (j == i)) [
    | inl same ↦
        let eq : j ≡ i = (==_iff j i).0 same in
        let gone : is_live (w.heap.objects i) ≡ false = ap (λ slot. is_live slot) free in
        rw same (ground (arith, ok i, eq, gone))
    | inr apart ↦ rw apart (ground (arith, ok j))
  ]

  copies-Counted :
      (w : World P) (i : ℕ)
      → 0 < w.held i
      → Counted w
      → Counted (record w { heap = add_reference i w.heap; held = set i (w.held i + 1) w.held })
  unfolding add_reference
  copies-Counted w i holds ok j = elim (Bool-cases (j == i)) [
    | inl same ↦ let eq : j ≡ i = (==_iff j i).0 same in rw same (ground (arith, ok i, ok j, eq))
    | inr apart ↦ rw apart (ground (arith, ok j))
  ]

  drops-Counted :
      (w : World P) (before after : List StreamObject) (s : StreamObject)
      → w.streams ≡ before ++ s ∷ after
      → Counted w
      → Counted (record w { heap = (free_object s w.heap).1; streams = before ++ after })
  unfolding free_object
  drops-Counted w before after s e ok =
      let fewer : (j : ℕ) → count j w.streams ≡ refers j s.connection + count j (before ++ after) =
        λ j. ap (count j) e ∙ count-cons j before after s in
      let same : ((j : ℕ) → refers j s.connection ≡ 0)
          → Counted (record w { streams = before ++ after }) =
        λ none_ j. ground (arith, ok j, fewer j, none_ j) in
      zval_rule
        (λ (r : StreamObject × Heap P).
          Counted (record w { heap = r.1; streams = before ++ after }))
        s.connection _ _ _ (λ z. same λ j. ap (refers j) z) (λ z. same λ j. ap (refers j) z)
        λ i z.
          let holds : (j : ℕ) → refers j s.connection ≡ (if j == i then 1 else 0) =
            λ j. ap (refers j) z in
          released-Counted w i w.held (before ++ after) ok (λ j. omega (arith, fewer j, holds j))
            (ground (arith, fewer i, holds i))

  Step-Counted : {w v : World P} → Step w v → Counted w → Counted v
  unfolding open_stream open_uni_stream get_stream write end reset
  Step-Counted {w} (makes i c free) ok = makes-Counted w i c free ok
  Step-Counted {w} (copies i holds) ok = copies-Counted w i holds ok
  Step-Counted {w} (forgets i holds) ok =
      released-Counted w i (set i (w.held i - 1) w.held) w.streams ok (λ j. ground arith)
        (omega (arith, holds))
  Step-Counted {w} (calls i method h holds e) ok =
      done-Counted w _ tt h ok (on_live-Keeps i (λ c. (tt, method c)) w.heap) e
  Step-Counted {w} (opens i r h holds e) ok =
      subst (Opened w) e (opened_on-Opened w i _ ok holds (on_live-Keeps i _ w.heap))
  Step-Counted {w} (opens_uni i r h holds e) ok =
      subst (Opened w) e (opened_on-Opened w i _ ok holds (on_live-Keeps i _ w.heap))
  Step-Counted {w} (gets stream_id i r h holds e) ok =
      subst (Found w) e (found_on-Found w i _ ok holds (on_live-Keeps i _ w.heap))
  Step-Counted {w} (reads n before after s r h at e) ok =
      done-Counted w _ r h ok (read-Keeps n s w.heap) e
  Step-Counted {w} (writes bytes before after s r h at e) ok =
      done-Counted w _ r h ok (on_connection-Keeps s _ _ w.heap) e
  Step-Counted {w} (ends final_data before after s r h at e) ok =
      done-Counted w _ r h ok (on_connection-Keeps s _ _ w.heap) e
  Step-Counted {w} (resets code before after s r h at e) ok =
      done-Counted w _ r h ok (on_connection-Keeps s _ _ w.heap) e
  Step-Counted {w} (drops before after s at) ok = drops-Counted w before after s at ok

  pub Reach-Counted : {w v : World P} → Reach w v → Counted w → Counted v
  Reach-Counted start ok = ok
  Reach-Counted (step m s) ok = Step-Counted s (Reach-Counted m ok)
