-- ===== src/Startup/Classes.antt =====
-- The classes of the extension after the start that src/ngtcp2.c makes.
use Prim.Native.String.{String}
use text.Mathlib.Text.{◌==◌}
use ext_ngtcp.Prelude.{
  ℕ, ◌≡◌, refl, ap, ◌∙◌, sym, Bool, true, false, ◌&&◌, ◌||◌, Option, none, some, List, [], ◌∷◌,
  arith,
}
use ext_ngtcp.Event.{EventClass, parent, class_for_type}
use ext_ngtcp.Startup.Engine.{
  Pointer, address_ce, datagram_ce, client_config_ce, connection_ce, server_config_ce,
  server_connection_ce, server_endpoint_ce, stream_ce, event_ce, Layout, Entry, Classes, Globals,
}
use ext_ngtcp.Startup.Register.{
  module_startup, address_init, datagram_init, event_init, connection_init, server_connection_init,
  server_endpoint_init, stream_init, register_event, register_kinds, register_events,
  declare_constants,
}
use ext_ngtcp.Startup.Tables.{
  Method, address_methods, datagram_methods, event_methods, client_config_methods,
  connection_methods, server_config_methods, server_connection_methods, server_endpoint_methods,
  stream_methods,
}

-- The class entry under a pointer after the start.
abbrev pub after : Globals → Classes
after s = (module_startup true s).1.classes

-- The struct of the objects of a class, its parent, and whether it is abstract.
abbrev pub layout_of : Pointer → Layout
layout_of address_ce = Layout.address
layout_of datagram_ce = Layout.datagram
layout_of client_config_ce = Layout.client_config
layout_of connection_ce = Layout.connection
layout_of server_config_ce = Layout.server_config
layout_of server_connection_ce = Layout.connection
layout_of server_endpoint_ce = Layout.server_endpoint
layout_of stream_ce = Layout.stream
layout_of (event_ce e) = Layout.event

abbrev pub event_parent : Option EventClass → Option Pointer
event_parent none = none
event_parent (some e) = some (event_ce e)

abbrev pub parent_class : Pointer → Option Pointer
parent_class server_connection_ce = some connection_ce
parent_class (event_ce e) = event_parent (parent e)
parent_class p = none

abbrev pub abstract_of : Pointer → Bool
abstract_of (event_ce EventClass.event) = true
abstract_of (event_ce EventClass.connection_event) = true
abstract_of (event_ce EventClass.stream_event) = true
abstract_of (event_ce EventClass.terminal_stream_event) = true
abstract_of p = false

abbrev pub methods_of : Pointer → List Method
methods_of address_ce = address_methods
methods_of datagram_ce = datagram_methods
methods_of client_config_ce = client_config_methods
methods_of connection_ce = connection_methods
methods_of server_config_ce = server_config_methods
methods_of server_connection_ce = server_connection_methods
methods_of server_endpoint_ce = server_endpoint_methods
methods_of stream_ce = stream_methods
methods_of (event_ce EventClass.event) = event_methods
methods_of (event_ce e) = []

-- All of an entry but its name.
abbrev pub Described : Option Entry → Pointer → Type 0
Described o p =
    (e : Entry) × (o ≡ some e)
    × (e.creates ≡ some (layout_of p))
    × (e.parent ≡ parent_class p)
    × (e.is_abstract ≡ abstract_of p)
    × (e.methods ≡ methods_of p)

event_after : (e : EventClass) (s : Globals) → Described (after s (event_ce e)) (event_ce e)
unfolding module_startup address_init datagram_init event_init connection_init
    server_connection_init server_endpoint_init stream_init register_event register_kinds
    register_events declare_constants parent
event_after EventClass.event s = (_, refl, refl, refl, refl, refl)
event_after EventClass.connection_event s = (_, refl, refl, refl, refl, refl)
event_after EventClass.stream_event s = (_, refl, refl, refl, refl, refl)
event_after EventClass.terminal_stream_event s = (_, refl, refl, refl, refl, refl)
event_after EventClass.handshake_completed_ce s = (_, refl, refl, refl, refl, refl)
event_after EventClass.connection_closed_ce s = (_, refl, refl, refl, refl, refl)
event_after EventClass.connection_draining_ce s = (_, refl, refl, refl, refl, refl)
event_after EventClass.stream_opened_ce s = (_, refl, refl, refl, refl, refl)
event_after EventClass.stream_readable_ce s = (_, refl, refl, refl, refl, refl)
event_after EventClass.stream_writable_ce s = (_, refl, refl, refl, refl, refl)
event_after EventClass.stream_closed_ce s = (_, refl, refl, refl, refl, refl)
event_after EventClass.stream_reset_ce s = (_, refl, refl, refl, refl, refl)

pub class_after : (p : Pointer) (s : Globals) → Described (after s p) p
unfolding module_startup address_init datagram_init event_init connection_init
    server_connection_init server_endpoint_init stream_init register_event register_kinds
    register_events declare_constants
class_after address_ce s = (_, refl, refl, refl, refl, refl)
class_after datagram_ce s = (_, refl, refl, refl, refl, refl)
class_after client_config_ce s = (_, refl, refl, refl, refl, refl)
class_after connection_ce s = (_, refl, refl, refl, refl, refl)
class_after server_config_ce s = (_, refl, refl, refl, refl, refl)
class_after server_connection_ce s = (_, refl, refl, refl, refl, refl)
class_after server_endpoint_ce s = (_, refl, refl, refl, refl, refl)
class_after stream_ce s = (_, refl, refl, refl, refl, refl)
class_after (event_ce e) s = event_after e s

-- instanceof_function: a class and those above it.
pub data InstanceOf (s : Classes) : Pointer → Pointer → Type 0 where
  self : (p : Pointer) → InstanceOf s p p
  below :
      (p q r : Pointer) (e : Entry)
      → s p ≡ some e
      → e.parent ≡ some q
      → InstanceOf s q r
      → InstanceOf s p r

event_parent_layout :
    (o : Option EventClass) (q : Pointer) → event_parent o ≡ some q → layout_of q ≡ Layout.event
event_parent_layout none q h = cc
event_parent_layout (some e) q h = cc

parent_layout : (p q : Pointer) → parent_class p ≡ some q → layout_of p ≡ layout_of q
parent_layout server_connection_ce q h = cc
parent_layout (event_ce e) q h = sym (event_parent_layout (parent e) q h)
parent_layout p q h = cc

InstanceOf-layout :
    (s : Globals) {p q : Pointer} → InstanceOf (after s) p q → layout_of p ≡ layout_of q
InstanceOf-layout s (self p) = refl
InstanceOf-layout s (below p q r e at up i) =
    let d = class_after p s in
    let same : d.0 ≡ e = cc (d.1, at) in
    let above : parent_class p ≡ some q = sym d.3 ∙ ap (λ (x : Entry). x.parent) same ∙ up in
    parent_layout p q above ∙ InstanceOf-layout s i

-- A method of the child that has the name of a final method of the parent.
declares : String → List Method → Bool
declares name [] = false
declares name (m ∷ methods) = m.name == name || declares name methods

unfoldable pub overrides_final : List Method → List Method → Bool
unfolding declares
overrides_final child [] = false
overrides_final child (m ∷ methods) =
    (m.is_final && declares m.name child) || overrides_final child methods

abbrev methods_above : Option Pointer → List Method
methods_above none = []
methods_above (some p) = methods_of p

event_finals :
    (o : Option EventClass) (child : List Method)
    → overrides_final child (methods_above (event_parent o)) ≡ false
unfolding overrides_final
event_finals none child = refl
event_finals (some EventClass.event) child = refl
event_finals (some e) child = refl

no_finals : (p : Pointer) → overrides_final (methods_of p) (methods_above (parent_class p)) ≡ false
unfolding overrides_final
no_finals server_connection_ce = refl
no_finals (event_ce e) = event_finals (parent e) (methods_of (event_ce e))
no_finals p = refl

concrete : (type : ℕ) → abstract_of (event_ce (class_for_type type)) ≡ false
unfolding class_for_type
concrete type = ground arith

-- The handlers of the objects of a struct.
handlers_after :
    (l : Layout) (s : Globals)
    → (module_startup true s).1.handlers l ≡ some (record { offset = l; free_obj = l })
unfolding module_startup address_init datagram_init event_init connection_init
    server_connection_init server_endpoint_init stream_init register_event register_kinds
    register_events declare_constants
handlers_after Layout.address s = refl
handlers_after Layout.datagram s = refl
handlers_after Layout.event s = refl
handlers_after Layout.client_config s = refl
handlers_after Layout.connection s = refl
handlers_after Layout.server_config s = refl
handlers_after Layout.server_endpoint s = refl
handlers_after Layout.stream s = refl

-- Whatever the variables hold before, after a start in which gnutls_global_init succeeds: each of
-- the class variables points to a class, and the handlers that its objects get have the offset and
-- the free_obj of the struct that is allocated. An object of a class is allocated as the struct that
-- the methods of every class above it read it as. No class has a method with the name of a final
-- method of its parent. A class that is chosen for the type of an event is not abstract. After a
-- start in which gnutls_global_init fails no variable has changed.
pub classes_fit :
    (s : Globals)
    → let t = (module_startup true s).1 in
      ((p : Pointer)
        → (e : Entry) × (t.classes p ≡ some e)
          × (l : Layout) × (e.creates ≡ some l)
          × (t.handlers l ≡ some (record { offset = l; free_obj = l })))
      × ((p q : Pointer) (d e : Entry)
          → InstanceOf t.classes p q
          → t.classes p ≡ some d
          → t.classes q ≡ some e
          → d.creates ≡ e.creates)
      × ((p q : Pointer) (d e : Entry)
          → t.classes p ≡ some d
          → d.parent ≡ some q
          → t.classes q ≡ some e
          → overrides_final d.methods e.methods ≡ false)
      × ((type : ℕ) (e : Entry)
          → t.classes (event_ce (class_for_type type)) ≡ some e
          → e.is_abstract ≡ false)
      × (module_startup false s ≡ (false, s))
unfolding module_startup
classes_fit s = (
  (λ p. let d = class_after p s in (d.0, d.1, layout_of p, d.2, handlers_after (layout_of p) s)),
  (λ p q d e i at above.
      let x = class_after p s in
      let y = class_after q s in cc (x.1, x.2, y.1, y.2, at, above, InstanceOf-layout s i)),
  (λ p q d e at up above.
      let x = class_after p s in
      let y = class_after q s in cc (x.1, x.3, x.5, y.1, y.5, at, up, above, no_finals p)),
  (λ type e at.
      let x = class_after (event_ce (class_for_type type)) s in cc (x.1, x.4, at, concrete type)),
  refl,
)
