-- ===== src/Examples/Loads.antt =====
-- The start of the extension in a process where its variables are NULL.
use ext_ngtcp.Prelude.{length, ℕ, ◌≡◌, true, false, none, some}
use ext_ngtcp.Startup.Names.{Named, constants-Named}
use ext_ngtcp.Event.{EventClass, class_for_type}
use ext_ngtcp.Startup.Engine.{Pointer, event_ce, Entry, Layout, Globals}
use ext_ngtcp.Startup.Register.{module_startup}
use ext_ngtcp.Startup.Classes.{InstanceOf, overrides_final, classes_fit}

abbrev pub fresh : Globals
fresh = record { classes = λ p. none; handlers = λ l. none }

classes_fit_example :
    let t = (module_startup true fresh).1 in
    ((p : Pointer)
      → (e : Entry) × (t.classes p ≡ some e)
        × (l : Layout) × (e.creates ≡ some l)
        × (t.handlers l ≡ some (record { offset = l; free_obj = l })))
    × ((p q : Pointer) (d e : Entry)
        → InstanceOf t.classes p q
        → t.classes p ≡ some d
        → t.classes q ≡ some e
        → d.creates ≡ e.creates)
    × ((p q : Pointer) (d e : Entry)
        → t.classes p ≡ some d
        → d.parent ≡ some q
        → t.classes q ≡ some e
        → overrides_final d.methods e.methods ≡ false)
    × ((type : ℕ) (e : Entry)
        → t.classes (event_ce (class_for_type type)) ≡ some e
        → e.is_abstract ≡ false)
    × (module_startup false fresh ≡ (false, fresh))
classes_fit_example = classes_fit fresh

constants-Named_example :
    let t = (module_startup true fresh).1.classes in
    (e : Entry) × (t (event_ce EventClass.event) ≡ some e)
    × (length e.constants ≡ 8)
    × Named t e.constants
constants-Named_example = constants-Named fresh
