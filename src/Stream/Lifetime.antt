-- ===== src/Stream/Lifetime.antt =====
-- How long the connection object of a stream object of src/stream.c is in memory.
use ext_ngtcp.Prelude.{
  ℕ, ◌+◌, ◌≡◌, ◌≢◌, refl, ap, ◌∙◌, Bool, true, Option, none, some, List, [], ◌∷◌, ◌++◌, Bytes,
  arith, ltb, ◌==◌, if◌then◌else◌, if_rule, option_rule, positive64, not,
}
use ext_ngtcp.Platform.{Platform}
use ext_ngtcp.Address.{Zval, undef, null, object}
use ext_ngtcp.Connection.State.{Connection}
use ext_ngtcp.Stream.Object.{
  Slot, vacant, live, freed, Heap, StreamObject, on_live, on_connection, read, write, end, reset,
  ask, resolve_connection,
}
use ext_ngtcp.Stream.World.{World, is_live, refers, count, Reach}
use ext_ngtcp.Stream.Counts.{Counted, count-cons}
use ext_ngtcp.Stream.Kept.{Reach-Counted}

resolved :
    (z : Zval ℕ) (i : ℕ)
    → elim z [ undef ↦ none | null ↦ none | object j ↦ some j ] ≡ some i
    → z ≡ object i
resolved undef i e = cc
resolved null i e = cc
resolved (object j) i e = cc

module _ {P : Platform} where
  held-Live :
      (w : World P) (before after : List StreamObject) (s : StreamObject) (i : ℕ)
      → Counted w
      → w.streams ≡ before ++ s ∷ after
      → s.connection ≡ object i
      → is_live (w.heap.objects i) ≡ true
  held-Live w before after s i ok at z =
      let fewer = ap (count i) at ∙ count-cons i before after s in
      let here : refers i s.connection ≡ (if i == i then 1 else 0) = ap (refers i) z in
      ground (arith, ok i, fewer, here)

  live_runs :
      {A : Type 0} (slot : Slot P) (f : Connection P → A × Heap P)
      → is_live slot ≡ true
      → elim slot [ vacant ↦ none | live c ↦ some (f c) | freed c ↦ none ] ≢ none
  live_runs vacant f l = cc
  live_runs (live c) f l = λ e. cc
  live_runs (freed c) f l = cc

  on_live-works :
      {A : Type 0} (i : ℕ) (method : Connection P → A × Connection P) (h : Heap P)
      → is_live (h.objects i) ≡ true
      → on_live i method h ≢ none
  unfolding on_live
  on_live-works i method h l = live_runs (h.objects i) _ l

  -- The methods of a stream object, on memory that is in use.
  abbrev pub Works : StreamObject → Heap P → Type 0
  Works s h =
      ((n : ℕ) → read n s h ≢ none)
      × ((bytes : Bytes) → write bytes s h ≢ none)
      × ((final_data : Option Bytes) → end final_data s h ≢ none)
      × ((code : ℕ) → reset code s h ≢ none)
      × ((absent : Bool) (question : ℕ → Connection P → Bool) → ask absent question s h ≢ none)

  on_connection-works :
      {A : Type 0} (s : StreamObject) (absent : A) (method : Connection P → A × Connection P)
      (h : Heap P)
      → ((i : ℕ) → s.connection ≡ object i → is_live (h.objects i) ≡ true)
      → on_connection s absent method h ≢ none
  unfolding on_connection
  on_connection-works s absent method h l =
      option_rule (λ o. o ≢ none) (resolve_connection s) _ _ (λ _ e. cc)
        λ i e. on_live-works i method h (l i (resolved s.connection i e))

  live-Works :
      (s : StreamObject) (h : Heap P)
      → ((i : ℕ) → s.connection ≡ object i → is_live (h.objects i) ≡ true)
      → Works s h
  unfolding read write end reset ask
  live-Works s h l = (
    (λ n.
        if_rule (λ o. o ≢ none) (not (positive64 n)) _ _ (λ _ e. cc)
          (λ _. on_connection-works s _ _ h l)),
    (λ bytes. on_connection-works s _ _ h l),
    (λ final_data. on_connection-works s _ _ h l),
    (λ code. on_connection-works s _ _ h l),
    (λ absent question. on_connection-works s _ _ h l),
  )

-- Nothing has been made.
abbrev pub empty : {P : Platform} → World P
empty = record {
  heap = record { objects = λ i. vacant; references = λ i. 0 };
  held = λ i. 0;
  streams = [];
}

empty-Counted : (P : Platform) → Counted (empty {P = P})
unfolding count
empty-Counted P i = (refl, refl)

-- A script makes connection objects, copies and drops variables with them, calls their methods,
-- opens and finds streams, calls methods of stream objects, and drops these, in any order. Then a
-- connection object is in memory exactly as long as a variable or a stream object holds it, and no
-- method of a stream object that there is runs on a connection whose memory is not in use.
pub streams_keep_connection :
    {P : Platform} (w : World P)
    → Reach empty w
    → ((i : ℕ) → is_live (w.heap.objects i) ≡ ltb 0 (w.held i + count i w.streams))
      × ((before after : List StreamObject) (s : StreamObject)
          → w.streams ≡ before ++ s ∷ after
          → Works s w.heap)
streams_keep_connection {P} w m =
    let ok : Counted w = Reach-Counted m (empty-Counted P) in
    (
      (λ i. ground (arith, ok i)),
      (λ before after s at. live-Works s w.heap λ i z. held-Live w before after s i ok at z),
    )
