-- ===== src/Connection/History/Kinds.antt =====
-- The classes of the event objects that a connection of src/connection.c hands out.
use ext_ngtcp.Prelude.{
  ℕ, ◌≡◌, refl, ap, ◌∙◌, sym, subst, true, some, List, [], ◌∷◌, ◌++◌, ◌⊎◌, inl, inr, map,
}
use ext_ngtcp.Queue.{Event}
use ext_ngtcp.Event.{
  EventClass, EventObject, parent, class_for_type, create_from_native, stream_opened,
  stream_readable, stream_writable, stream_closed, stream_reset,
}
use ext_ngtcp.Event.Objects.{IsStreamType, IsConnectionType, parent-class_for_type}
use ext_ngtcp.Platform.{Platform}
use ext_ngtcp.Connection.State.{Connection, create_object}
use ext_ngtcp.Connection.Methods.{drain_events}
use ext_ngtcp.Connection.History.Moves.{
  Move, quiet, emit, Announces, of_stream, of_handshake, of_close, of_drain,
}
use ext_ngtcp.Connection.History.Reach.{Reach, reach_keep}
use ext_ngtcp.Startup.Engine.{Classes, Globals, event_ce}
use ext_ngtcp.Startup.Register.{module_startup}
use ext_ngtcp.Startup.Classes.{InstanceOf, self, below, after, class_after, event_parent}

abbrev IsKnown : Event → Type 0
IsKnown e = IsStreamType e.type ⊎ IsConnectionType e.type

abbrev Known : List Event → Type 0
Known [] = Unit
Known (e ∷ es) = IsKnown e × Known es

Known-snoc : (es : List Event) (e : Event) → Known es → IsKnown e → Known (es ++ e ∷ [])
Known-snoc [] e h k = (k, tt)
Known-snoc (d ∷ es) e h k = (h.0, Known-snoc es e h.1 k)

module _ {P : Platform} where
  Announces-IsKnown : {c d : Connection P} (e : Event) → Announces e.type c d → IsKnown e
  Announces-IsKnown e (of_stream h same) = inl h
  Announces-IsKnown e (of_handshake h a b x y) = inr (inl h)
  Announces-IsKnown e (of_close h a b x y) = inr (inr (inl h))
  Announces-IsKnown e (of_drain h a b x y) = inr (inr (inr h))

  abbrev Queued : List Event → Connection P → Type 0
  Queued out c = Known c.events

  Move-Queued : (out : List Event) (c d : Connection P) → Move c d → Queued out c → Queued out d
  Move-Queued out c d (quiet later same events) h = subst Known (sym events) h
  Move-Queued out c d (emit e later em) h =
      subst Known (sym em.events) (Known-snoc c.events e h (Announces-IsKnown e em.announces))

  drain-Queued :
      (out : List Event) (c : Connection P)
      → Queued out c
      → Queued (out ++ c.events) (drain_events c).1
  unfolding drain_events
  drain-Queued out c h = tt

-- An object is of a class for its type, below the abstract class of the kind of its event.
abbrev pub IsKind : Classes → EventObject → Type 0
IsKind t o =
    (o.ce ≡ class_for_type o.type)
    × ((IsStreamType o.type × InstanceOf t (event_ce o.ce) (event_ce EventClass.stream_event))
        ⊎ (IsConnectionType o.type
            × InstanceOf t (event_ce o.ce) (event_ce EventClass.connection_event)))

abbrev pub Kinds : Classes → List EventObject → Type 0
Kinds t [] = Unit
Kinds t (o ∷ os) = IsKind t o × Kinds t os

module _ (s : Globals) where
  -- One step up in the classes after the start.
  child_of :
      (e p q : EventClass)
      → parent e ≡ some p
      → InstanceOf (after s) (event_ce p) (event_ce q)
      → InstanceOf (after s) (event_ce e) (event_ce q)
  child_of e p q up i =
      let d = class_after (event_ce e) s in
      below (event_ce e) (event_ce p) (event_ce q) d.0 d.1 (d.3 ∙ ap event_parent up) i

  stream_instance :
      (t : ℕ)
      → IsStreamType t
      → InstanceOf (after s) (event_ce (class_for_type t)) (event_ce EventClass.stream_event)
  unfolding parent
  stream_instance t h =
      let direct : (t ≡ stream_opened) ⊎ (t ≡ stream_readable) ⊎ (t ≡ stream_writable)
          → InstanceOf (after s) (event_ce (class_for_type t)) (event_ce EventClass.stream_event) =
        λ k.
          child_of (class_for_type t) EventClass.stream_event EventClass.stream_event
            ((parent-class_for_type t).2 k) (self (event_ce EventClass.stream_event)) in
      let ended : (t ≡ stream_closed) ⊎ (t ≡ stream_reset)
          → InstanceOf (after s) (event_ce (class_for_type t)) (event_ce EventClass.stream_event) =
        λ k.
          child_of (class_for_type t) EventClass.terminal_stream_event EventClass.stream_event
            ((parent-class_for_type t).1 k)
            (child_of EventClass.terminal_stream_event EventClass.stream_event
              EventClass.stream_event refl (self (event_ce EventClass.stream_event))) in
      elim h [
        | inl opened ↦ direct (inl opened)
        | inr (inl readable) ↦ direct (inr (inl readable))
        | inr (inr (inl writable)) ↦ direct (inr (inr writable))
        | inr (inr (inr (inl closed))) ↦ ended (inl closed)
        | inr (inr (inr (inr reset))) ↦ ended (inr reset)
      ]

  native-IsKind : (e : Event) → IsKnown e → IsKind (after s) (create_from_native e)
  unfolding create_from_native
  native-IsKind e (inl h) = (refl, inl (h, stream_instance e.type h))
  native-IsKind e (inr h) = (
    refl,
    inr (
      h,
      child_of (class_for_type e.type) EventClass.connection_event EventClass.connection_event
          ((parent-class_for_type e.type).0 h) (self (event_ce EventClass.connection_event)),
    ),
  )

  native-Kinds : (es : List Event) → Known es → Kinds (after s) (map create_from_native es)
  native-Kinds [] h = tt
  native-Kinds (e ∷ es) h = (native-IsKind e h.0, native-Kinds es h.1)

-- After a start of the extension and any sequence of calls on a connection object and its streams,
-- each object that drainEvents returns is of the class for its type. That type is of a stream event
-- and the class is below StreamEvent, or it is of a connection event and the class is below
-- ConnectionEvent.
pub events_of_kind :
    {P : Platform} (s : Globals) (zero_addr : P.Sockaddr) (c : Connection P) (out : List Event)
    → Reach (create_object P zero_addr) out c
    → Kinds (module_startup true s).1.classes (drain_events c).0
unfolding drain_events create_object
events_of_kind s zero_addr c out m =
    native-Kinds s c.events (reach_keep Queued Move-Queued drain-Queued m tt)
