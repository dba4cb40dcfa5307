-- ===== src/Queue/Refinement.antt =====
-- The pointers of src/queue.c against the list of the events that they hold.
use ext_ngtcp.Prelude.{
  ℕ, zero, suc, ◌+◌, ◌-◌, ◌%◌, ◌<◌, ◌≡◌, refl, sym, ◌∙◌, none, some, [], ◌∷◌, ◌++◌, arith, u32_mod,
  length, ap,
}
use ext_ngtcp.Queue.{Event, EventQueue, Heap, null, store, init, push, pop, drain}
use ext_ngtcp.Queue.Segment.{
  Cells, events, first, last_from, last_event, Apart, Linked, Linked-store, last_cell, extended,
  extended-Linked,
}

-- The queue and the heap hold these nodes, in this order.
pub record Represents (h : Heap) (q : EventQueue) (cells : Cells) : Type 0 where
  pub at_head : q.head ≡ first cells
  pub at_tail : q.tail ≡ last_from null cells
  pub at_size : q.size ≡ length cells % u32_mod
  pub linked : Linked h cells

init-Represents : (h : Heap) → Represents h init []
unfolding init
init-Represents h = record { at_head = refl; at_tail = refl; at_size = refl; linked = tt }

length-snoc : (cells : Cells) (a : ℕ × Event) → length (cells ++ a ∷ []) ≡ suc (length cells)
length-snoc [] a = refl
length-snoc (c ∷ cells) a = ap suc (length-snoc cells a)

last-snoc : (a node : ℕ) (e : Event) (cells : Cells) → last_from a (cells ++ (node, e) ∷ []) ≡ node
last-snoc a node e [] = refl
last-snoc a node e ((b, f) ∷ cells) = last-snoc b node e cells

last_pos : (h : Heap) (a : ℕ) (cells : Cells) → 0 < a → Linked h cells → 0 < last_from a cells
last_pos h a [] pos l = pos
last_pos h a ((b, f) ∷ cells) pos l = last_pos h b cells l.0 l.3

-- With a fresh address from emalloc, `push` does not fault, puts the event behind all others, and
-- leaves a queue that is represented again.
pub push-Represents :
    (h : Heap) (q : EventQueue) (cells : Cells) (node : ℕ) (event : Event)
    → Represents h q cells
    → 0 < node
    → h node ≡ none
    → (h' : Heap) × (q' : EventQueue) × (push node event h q ≡ some (tt, h', q'))
      × Represents h' q' (cells ++ (node, event) ∷ [])
unfolding push
push-Represents h q [] node event r pos free = (
  store h node (some (record { event = event; next = null })),
  record { head = node; tail = node; size = (q.size + 1) % u32_mod },
  ground (arith, r.at_tail),
  record {
    at_head = refl;
    at_tail = refl;
    at_size = ground (arith, r.at_size);
    linked = ground (arith);
  },
)
push-Represents h q ((a, e) ∷ cells) node event r pos free = (
  extended h node event (last_from a cells) (last_event e cells),
  record { head = q.head; tail = node; size = (q.size + 1) % u32_mod },
  ground
      (arith, r.at_tail, last_pos h a cells r.linked.0 r.linked.3, last_cell h a e cells r.linked),
  record {
    at_head = r.at_head;
    at_tail = sym (last-snoc a node event cells);
    at_size = omega (arith, r.at_size, length-snoc cells (node, event));
    linked = extended-Linked h node event a e cells pos free r.linked;
  },
)

pub pop_empty : (h : Heap) (q : EventQueue) → Represents h q [] → pop h q ≡ some (none, h, q)
unfolding pop
pop_empty h q r = ground (arith, r.at_head)

-- `pop` takes the oldest event off, frees its node, and leaves the rest represented.
pub pop-Represents :
    (h : Heap) (q : EventQueue) (a : ℕ) (e : Event) (cells : Cells)
    → Represents h q ((a, e) ∷ cells)
    → (q' : EventQueue) × (pop h q ≡ some (some e, store h a none, q'))
      × Represents (store h a none) q' cells
unfolding pop
pop-Represents h q a e [] r = (
  record { head = null; tail = null; size = (q.size + u32_mod - 1) % u32_mod },
  ground (arith, r.at_head, r.linked.0, r.linked.1),
  record { at_head = refl; at_tail = refl; at_size = omega (arith, r.at_size); linked = tt },
)
pop-Represents h q a e ((b, f) ∷ cells) r = (
  record { head = b; tail = q.tail; size = (q.size + u32_mod - 1) % u32_mod },
  ground (arith, r.at_head, r.linked.0, r.linked.1, r.linked.3.0),
  record {
    at_head = refl;
    at_tail = r.at_tail;
    at_size = omega (arith, r.at_size);
    linked = Linked-store h a none ((b, f) ∷ cells) r.linked.2 r.linked.3;
  },
)

empty_init : (h : Heap) (q : EventQueue) → Represents h q [] → q ≡ init
unfolding init
empty_init h q r = ground (arith, r.at_head, r.at_tail, r.at_size)

-- The heap without the nodes.
pub released : Heap → Cells → Heap
released h [] = h
released h ((a, e) ∷ cells) = released (store h a none) cells

-- With one round more than there are nodes, the loop of destroy and of drainEvents ends, has popped
-- every event in the order of arrival, has freed exactly the nodes, and leaves the empty queue.
pub drain-Represents :
    (h : Heap) (q : EventQueue) (cells : Cells) (fuel : ℕ)
    → Represents h q cells
    → length cells < fuel
    → drain fuel h q ≡ some (events cells, released h cells, init)
unfolding drain released
drain-Represents h q [] (suc fuel) r enough = rw (pop_empty h q r, drain) (rw (empty_init h q r))
drain-Represents h q _ zero r enough = elim enough [ ]
drain-Represents h q ((a, e) ∷ cells) (suc fuel) r enough =
    let popped = pop-Represents h q a e cells r in
    rw (popped.1, drain)
      (rw (drain-Represents (store h a none) popped.0 cells fuel popped.2 (omega arith)))

released-Apart : (h : Heap) (cells : Cells) (a : ℕ) → Apart a cells → released h cells a ≡ h a
unfolding released
released-Apart h [] a apart = refl
released-Apart h ((b, e) ∷ cells) a apart =
    released-Apart (store h b none) cells a apart.1 ∙ ground (arith, apart.0)

released-none : (h : Heap) (cells : Cells) (a : ℕ) → h a ≡ none → released h cells a ≡ none
unfolding released
released-none h [] a free = free
released-none h ((b, e) ∷ cells) a free = released-none (store h b none) cells a (ground arith)

-- Every node is freed.
pub released_each :
    (h : Heap) (front back : Cells) (a : ℕ) (e : Event)
    → released h (front ++ (a, e) ∷ back) a ≡ none
unfolding released
released_each h [] back a e = released-none (store h a none) back a (ground arith)
released_each h ((b, f) ∷ front) back a e = released_each (store h b none) front back a e
