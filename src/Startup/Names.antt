-- ===== src/Startup/Names.antt =====
-- The constants of the Event class and the names of the classes of src/event.c.
use Prim.Native.Char.{code}
use Prim.Native.String.{String}
use ext_ngtcp.Prelude.{ℕ, length, ◌+◌, ◌≡◌, refl, true, some, List, [], ◌∷◌, ◌==◌, if◌then◌else◌}
use ext_ngtcp.Event.{EventClass, class_for_type}
use ext_ngtcp.Startup.Engine.{Globals, Classes, Entry, event_ce}
use ext_ngtcp.Startup.Register.{
  module_startup, address_init, datagram_init, event_init, connection_init, server_connection_init,
  server_endpoint_init, stream_init, register_event, register_kinds, register_events,
  declare_constants,
}

abbrev pub codes : String → List ℕ
codes String.[] = []
codes (String.◌∷◌ c s) = code c ∷ codes s

-- From upper case with underscores: a letter is made lower case but at the start of a word.
abbrev words : ℕ → List ℕ → List ℕ
words offset [] = []
words offset (c ∷ cs) = if c == b'_' then words 0 cs else (c + offset) ∷ words 32 cs

abbrev pub camel : String → List ℕ
camel name = words 0 (codes name)

-- The class for an event type has the name that the constant of the type has.
abbrev pub Named : Classes → List (String × ℕ) → Type 0
Named t [] = Unit
Named t ((name, type) ∷ constants) =
    ((e : Entry) × (t (event_ce (class_for_type type)) ≡ some e) × (codes e.name ≡ camel name))
    × Named t constants

-- After a start, whatever the variables hold before: the Event class is there, it has eight
-- constants, and for each of them, the class that is chosen for events of its value has its name,
-- NAME_OF_EVENT being NameOfEvent.
pub constants-Named :
    (s : Globals)
    → let t = (module_startup true s).1.classes in
      (e : Entry) × (t (event_ce EventClass.event) ≡ some e)
      × (length e.constants ≡ 8)
      × Named t e.constants
unfolding module_startup address_init datagram_init event_init connection_init
    server_connection_init server_endpoint_init stream_init register_event register_kinds
    register_events declare_constants class_for_type
constants-Named s = (
  _,
  refl,
  refl,
  (
    (_, refl, refl),
    (
      (_, refl, refl),
      (
        (_, refl, refl),
        (
          (_, refl, refl),
          ((_, refl, refl), ((_, refl, refl), ((_, refl, refl), ((_, refl, refl), tt)))),
        ),
      ),
    ),
  ),
)
