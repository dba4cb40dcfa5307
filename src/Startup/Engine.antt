-- ===== src/Startup/Engine.antt =====
-- What the functions that register the classes of the extension ask of the PHP engine, and the
-- variables that they set. A class entry is known by the variable that points to it; `none` is
-- NULL.
use Prim.Native.String.{String}
use ext_ngtcp.Prelude.{
  ℕ, Bool, true, false, Option, none, some, List, [], ◌∷◌, ◌++◌, ◌==◌, if◌then◌else◌,
}
use ext_ngtcp.Event.{EventClass}
use ext_ngtcp.Startup.Tables.{Method}

-- The variables of type zend_class_entry *.
pub data Pointer : Type 0 where
  address_ce datagram_ce client_config_ce connection_ce server_config_ce server_connection_ce
        server_endpoint_ce stream_ce :
      Pointer
  event_ce : EventClass → Pointer

-- The structs that objects are allocated as, one for each create_object function.
pub data Layout : Type 0 where
  address datagram event client_config connection server_config server_endpoint stream : Layout

pub record Entry : Type 0 where
  pub namespace : String
  pub name : String
  pub methods : List Method
  pub parent : Option Pointer
  pub is_abstract : Bool
  -- the struct that create_object allocates, and whose handlers it sets
  pub creates : Option Layout
  pub constants : List (String × ℕ)

abbrev pub Classes : Type 0
Classes = Pointer → Option Entry

-- zend_object_handlers: the struct whose offset it has, and the struct that free_obj frees.
pub record Handlers : Type 0 where
  pub offset : Layout
  pub free_obj : Layout

-- The static variables: the class entries, and the handlers of the objects of each struct, once they
-- are filled in.
pub record Globals : Type 0 where
  pub classes : Classes
  pub handlers : Layout → Option Handlers

abbrev pub code_of_event : EventClass → ℕ
code_of_event EventClass.event = 8
code_of_event EventClass.connection_event = 9
code_of_event EventClass.stream_event = 10
code_of_event EventClass.terminal_stream_event = 11
code_of_event EventClass.handshake_completed_ce = 12
code_of_event EventClass.connection_closed_ce = 13
code_of_event EventClass.connection_draining_ce = 14
code_of_event EventClass.stream_opened_ce = 15
code_of_event EventClass.stream_readable_ce = 16
code_of_event EventClass.stream_writable_ce = 17
code_of_event EventClass.stream_closed_ce = 18
code_of_event EventClass.stream_reset_ce = 19

abbrev pub code_of : Pointer → ℕ
code_of address_ce = 0
code_of datagram_ce = 1
code_of client_config_ce = 2
code_of connection_ce = 3
code_of server_config_ce = 4
code_of server_connection_ce = 5
code_of server_endpoint_ce = 6
code_of stream_ce = 7
code_of (event_ce e) = code_of_event e

abbrev pub assign : Pointer → Option Entry → Globals → Globals
assign p e s = record s { classes = λ q. if code_of q == code_of p then e else s.classes q }

abbrev pub layout_code : Layout → ℕ
layout_code Layout.address = 0
layout_code Layout.datagram = 1
layout_code Layout.event = 2
layout_code Layout.client_config = 3
layout_code Layout.connection = 4
layout_code Layout.server_config = 5
layout_code Layout.server_endpoint = 6
layout_code Layout.stream = 7

-- The standard handlers, with offset and free_obj set.
abbrev pub set_handlers : Layout → Handlers → Globals → Globals
set_handlers l h s = record s {
  handlers = λ k. if layout_code k == layout_code l then some h else s.handlers k;
}

-- The class under a pointer, and the struct that a child takes over from it.
abbrev pub parent_of : Pointer → Option Entry → Option Pointer
parent_of p none = none
parent_of p (some e) = some p

abbrev pub creates_of : Option Entry → Option Layout
creates_of none = none
creates_of (some e) = e.creates

-- zend_register_internal_class
abbrev pub register_class : Pointer → String → String → List Method → Globals → Globals
register_class p namespace name methods s =
    assign p
      (some (record {
        namespace = namespace;
        name = name;
        methods = methods;
        parent = none;
        is_abstract = false;
        creates = none;
        constants = [];
      }))
      s

-- zend_register_internal_class_ex: a class under the one that the pointer has by then.
abbrev pub register_class_ex : Pointer → String → String → List Method → Pointer → Globals → Globals
register_class_ex p namespace name methods parent s =
    assign p
      (some (record {
        namespace = namespace;
        name = name;
        methods = methods;
        parent = parent_of parent (s.classes parent);
        is_abstract = false;
        creates = creates_of (s.classes parent);
        constants = [];
      }))
      s

-- ce->create_object, and ZEND_ACC_EXPLICIT_ABSTRACT_CLASS.
abbrev pub created_as : Layout → Option Entry → Option Entry
created_as layout none = none
created_as layout (some e) = some (record e { creates = some layout })

abbrev pub made_abstract : Option Entry → Option Entry
made_abstract none = none
made_abstract (some e) = some (record e { is_abstract = true })

abbrev pub set_create_object : Pointer → Layout → Globals → Globals
set_create_object p layout s = assign p (created_as layout (s.classes p)) s

abbrev pub set_abstract : Pointer → Globals → Globals
set_abstract p s = assign p (made_abstract (s.classes p)) s

-- zend_declare_class_constant_long
abbrev pub with_constant : String → ℕ → Option Entry → Option Entry
with_constant name value none = none
with_constant name value (some e) =
    some (record e { constants = e.constants ++ (name, value) ∷ [] })

abbrev pub declare_constant : Pointer → String → ℕ → Globals → Globals
declare_constant p name value s = assign p (with_constant name value (s.classes p)) s
