-- ===== src/Queue.antt =====
-- src/queue.c: the event queue, a singly linked list of nodes on the Zend heap with a pointer to its
-- first and to its last node. An address is a number and NULL is 0; the address that emalloc
-- returns is an argument of `push`. The reference count of the reason string is not modelled.
mod Segment
pub mod Refinement
use ext_ngtcp.Prelude.{
  ℕ, ◌+◌, ◌-◌, ◌%◌, Bool, true, false, Option, none, some, Bytes, ◌==◌, if◌then◌else◌, u32_mod,
  List, [], ◌∷◌, zero, suc,
}

-- php_quic_event of src/internal/types.h. The type is a code, the stream id an int64_t pattern.
pub record Event : Type 0 where
  pub type : ℕ
  pub stream_id : ℕ
  pub error_code : ℕ
  pub by_peer : Bool
  pub reason : Option Bytes
  pub timestamp : ℕ

pub record Node : Type 0 where
  pub event : Event
  pub next : ℕ

pub record EventQueue : Type 0 where
  pub head : ℕ
  pub tail : ℕ
  pub size : ℕ

-- The cells that are allocated.
abbrev pub Heap : Type 0
Heap = ℕ → Option Node

abbrev pub null : ℕ
null = 0

abbrev pub store : Heap → ℕ → Option Node → Heap
store h p cell a = if p == a then cell else h a

-- An action on the heap and the queue; `none` is an access to a cell that is not allocated.
abbrev pub Action {ℓ} : Type ℓ → Type ℓ
Action A = Heap → EventQueue → Option (A × Heap × EventQueue)

pub init : EventQueue
init = record { head = null; tail = null; size = 0 }

-- queue->tail->next = node, on the node that the tail points to.
link : Heap → ℕ → ℕ → Option Node → Option Heap
link h tail node none = none
link h tail node (some last) = some (store h tail (some (record last { next = node })))

-- `node` is the address that emalloc returned.
pub push : ℕ → Event → Action (Unit {0})
unfolding link
push node event h queue =
    let h1 = store h node (some (record { event = event; next = null })) in
    let size = (queue.size + 1) % u32_mod in
    if queue.tail == null
    then some (tt, h1, record { head = node; tail = node; size = size })
    else elim (link h1 queue.tail node (h1 queue.tail)) [
      | none ↦ none
      | some h2 ↦ some (tt, h2, record { head = queue.head; tail = node; size = size })
    ]

take_head : Heap → EventQueue → Option Node → Option (Option Event × Heap × EventQueue)
take_head h queue none = none
take_head h queue (some node) =
    let tail = if node.next == null then null else queue.tail in
    some (
      some node.event,
      store h queue.head none,
      record { head = node.next; tail = tail; size = (queue.size + u32_mod - 1) % u32_mod },
    )

-- The event, or `none` where the function returns 0.
pub pop : Action (Option Event)
unfolding take_head
pop h queue = if queue.head == null then some (none, h, queue) else take_head h queue (h queue.head)

-- The loop of php_quic_event_queue_destroy and of Connection::drainEvents: pops until the queue is
-- empty, and collects the events. `none` is a fault, or that the fuel ran out.
pub drain : ℕ → Action (List Event)
drain zero h queue = none
drain (suc fuel) h queue = elim (pop h queue) [
  | none ↦ none
  | some (none, h', queue') ↦ some ([], h', queue')
  | some (some event, h', queue') ↦ elim (drain fuel h' queue') [
    | none ↦ none
    | some (events, h'', queue'') ↦ some (event ∷ events, h'', queue'')
  ]
]
