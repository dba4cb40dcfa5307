-- ===== src/Queue/Segment.antt =====
-- The chain of nodes of the queue of src/queue.c, as a list of addresses with their events.
use ext_ngtcp.Prelude.{ℕ, ◌<◌, ◌≡◌, ◌≢◌, sym, Option, none, some, List, [], ◌∷◌, ◌++◌, arith}
use ext_ngtcp.Queue.{Event, Node, Heap, null, store}

-- Each node of the queue, first to last: its address and its event.
abbrev pub Cells : Type 0
Cells = List (ℕ × Event)

abbrev pub events : Cells → List Event
events [] = []
events ((a, e) ∷ cells) = e ∷ events cells

-- The address of the first node; NULL if there is none.
abbrev pub first : Cells → ℕ
first [] = null
first ((a, e) ∷ cells) = a

abbrev pub last_from : ℕ → Cells → ℕ
last_from a [] = a
last_from a ((b, e) ∷ cells) = last_from b cells

abbrev pub last_event : Event → Cells → Event
last_event e [] = e
last_event e ((b, f) ∷ cells) = last_event f cells

abbrev pub Apart : ℕ → Cells → Type 0
Apart a [] = Unit {0}
Apart a ((b, e) ∷ cells) = (a ≢ b) × Apart a cells

-- The nodes are allocated at different addresses, and each points to the one behind it.
abbrev pub Linked : Heap → Cells → Type 0
Linked h [] = Unit {0}
Linked h ((a, e) ∷ cells) =
    (0 < a)
    × (h a ≡ some (record { event = e; next = first cells }))
    × Apart a cells
    × Linked h cells

pub Linked-store :
    (h : Heap) (a : ℕ) (cell : Option Node) (cells : Cells)
    → Apart a cells
    → Linked h cells
    → Linked (store h a cell) cells
Linked-store h a cell [] apart l = tt
Linked-store h a cell ((b, e) ∷ cells) apart l =
    ground (arith, Linked-store h a cell cells apart.1 l.3)

-- An address that is not allocated is not in the chain.
pub Linked-Apart : (h : Heap) (a : ℕ) (cells : Cells) → h a ≡ none → Linked h cells → Apart a cells
Linked-Apart h a [] free l = tt
Linked-Apart h a ((b, e) ∷ cells) free l =
    ((λ (same : a ≡ b). ground arith), Linked-Apart h a cells free l.3)

Apart-append :
    (a b : ℕ) (e : Event) (cells : Cells) → a ≢ b → Apart a cells → Apart a (cells ++ (b, e) ∷ [])
Apart-append a b e [] ne apart = (ne, tt)
Apart-append a b e ((c, f) ∷ cells) ne apart = (apart.0, Apart-append a b e cells ne apart.1)

Apart-last : (a b : ℕ) (cells : Cells) → a ≢ b → Apart a cells → a ≢ last_from b cells
Apart-last a b [] ne apart = ne
Apart-last a b ((c, f) ∷ cells) ne apart = Apart-last a c cells apart.0 apart.1

pub last_cell :
    (h : Heap) (a : ℕ) (e : Event) (cells : Cells)
    → Linked h ((a, e) ∷ cells)
    → h (last_from a cells) ≡ some (record { event = last_event e cells; next = null })
last_cell h a e [] l = l.1
last_cell h a e ((b, f) ∷ cells) l = last_cell h b f cells l.3

-- The heap after the two writes of a push behind a last node.
abbrev pub extended : Heap → ℕ → Event → ℕ → Event → Heap
extended h node event tail last =
    store (store h node (some (record { event = event; next = null }))) tail
      (some (record { event = last; next = node }))

pub extended-Linked :
    (h : Heap) (node : ℕ) (event : Event) (a : ℕ) (e : Event) (cells : Cells)
    → 0 < node
    → h node ≡ none
    → Linked h ((a, e) ∷ cells)
    → Linked
        (extended h node event (last_from a cells) (last_event e cells))
        ((a, e) ∷ cells ++ (node, event) ∷ [])
extended-Linked h node event a e [] pos free l =
    let apart : Apart node ((a, e) ∷ []) = Linked-Apart h node ((a, e) ∷ []) free l in
    ground (arith, apart.0)
extended-Linked h node event a e ((b, f) ∷ cells) pos free l =
    let apart = Linked-Apart h node ((a, e) ∷ (b, f) ∷ cells) free l in
    let ne : a ≢ node = λ same. apart.0 (sym same) in
    let away : a ≢ last_from b cells = Apart-last a b cells l.2.0 l.2.1 in
    (
      l.0,
      ground (arith, ne, away),
      Apart-append a node event ((b, f) ∷ cells) ne l.2,
      extended-Linked h node event b f cells pos free l.3,
    )
