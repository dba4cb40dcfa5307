-- ===== src/Endpoint/State.antt =====
-- The state of an endpoint of src/server_endpoint.c, the hash table of its connections with their
-- keys, and what it needs of a connection object: a call by the name of a method is a field of
-- `Handler`.
use ext_ngtcp.Prelude.{
  ◌≡◌, refl, ℕ, Bool, true, false, Option, none, some, List, [], ◌∷◌, ◌++◌, Bytes, length, ◌==◌,
  if◌then◌else◌, c_string, show_long, bytes_eq,
}
use ext_ngtcp.Address.{Address, Zval, undef, null, object}
use ext_ngtcp.Datagram.{Datagram}

-- What call_user_function makes of a method: FAILURE, or SUCCESS with an exception that the method
-- has thrown and that is pending now, with a return value of another type, or with one of the kind
-- that is wanted. The object is left in some state either way.
pub data Dispatch (A : Type 0) : Type 0 where
  failed raised other : Dispatch A
  value : A → Dispatch A

-- A connection object, as the endpoint sees it: its three flags, and the methods it is sent.
pub record Handler : Type 1 where
  pub Object : Type 0
  pub Config : Type 0
  pub Event : Type 0
  -- While an exception is pending call_user_function calls nothing. It answers FAILURE (PHP 8.1 and
  -- before), or SUCCESS with an undefined value.
  pub fails_while_pending : Bool
  pub closed : Object → Bool
  pub close_requested : Object → Bool
  pub close_packet_sent : Object → Bool
  pub accept : Datagram → Config → Dispatch Object
  pub recv : Datagram → Object → Dispatch (Unit {0}) × Object
  pub handle_timers : Object → Dispatch (Unit {0}) × Object
  pub get_next_expiry : Object → Dispatch ℕ × Object
  pub get_next_timeout : Object → Dispatch ℕ × Object
  pub drain_outgoing_datagrams : Object → Dispatch (List Datagram) × Object
  pub drain_events : Object → Dispatch (List Event) × Object

pub data EndpointError : Type 0 where
  peer_address_is_invalid failed_to_route accept_dispatch_failed accept_returned_invalid
        timer_dispatch_failed deadline_dispatch_failed timeout_dispatch_failed
        drain_dispatch_failed :
      EndpointError
  -- the exception that the method of a connection has thrown
  of_connection : EndpointError

pub data Answer {ℓ} (A : Type ℓ) : Type ℓ where
  returned : A → Answer A
  thrown : EndpointError → Answer A

-- An object is known by its handle, so the accepted queue and the table share it. `objects` is the
-- state of every object by handle, `next_handle` the handle of the next object made: neither is a
-- field of the C record.
pub record Endpoint (H : Handler) : Type 0 where
  pub config : H.Config
  pub accepted_queue : List ℕ
  pub connections : List (Bytes × ℕ)
  pub objects : ℕ → H.Object
  pub next_handle : ℕ

abbrev pub Table : Type 0
Table = List (Bytes × ℕ)

unfoldable pub hash_find : Bytes → Table → Option ℕ
hash_find k [] = none
hash_find k ((j, h) ∷ table) = if bytes_eq j k then some h else hash_find k table

unfoldable pub hash_update : Bytes → ℕ → Table → Table
hash_update k h [] = (k, h) ∷ []
hash_update k h ((j, i) ∷ table) =
    if bytes_eq j k then (j, h) ∷ table else (j, i) ∷ hash_update k h table

unfoldable pub hash_del : Bytes → Table → Table
hash_del k [] = []
hash_del k ((j, i) ∷ table) = if bytes_eq j k then table else (j, i) ∷ hash_del k table

unfoldable pub key_of : Address → Option Bytes
key_of address =
    if length address.host == 0
    then none
    else some (c_string address.host ++ b'|' ∷ show_long address.port)

-- php_quic_server_endpoint_connection_key: "%s|%ld" of the peer's address.
unfoldable pub connection_key : Zval Address → Option Bytes
unfolding key_of
connection_key undef = none
connection_key null = none
connection_key (object address) = key_of address

module _ {H : Handler} where
  unfoldable pub set_object : Endpoint H → ℕ → H.Object → Endpoint H
  set_object e h o = record e { objects = λ i. if i == h then o else e.objects i }

-- A branch on what a call was made of.
pub dispatch_rule {κ} :
    {A B : Type 0} (Q : B → Type κ) (r : Dispatch A) (x y z : B) (f : A → B)
    → (r ≡ failed → Q x)
    → (r ≡ raised → Q y)
    → (r ≡ other → Q z)
    → ((a : A) → r ≡ value a → Q (f a))
    → Q (elim r [ failed ↦ x | raised ↦ y | other ↦ z | value a ↦ f a ])
dispatch_rule Q failed x y z f k l m n = k refl
dispatch_rule Q raised x y z f k l m n = l refl
dispatch_rule Q other x y z f k l m n = m refl
dispatch_rule Q (value a) x y z f k l m n = n a refl

-- How a loop over the connections ends: a call has failed, an exception is pending, or all calls
-- have returned.
pub data Ran (A : Type 0) : Type 0 where
  stopped pending : Ran A
  ran : A → Ran A

-- The rest of a loop after a call that has left an exception: the next call, if there is one, may
-- fail.
unfoldable pub after_raise : {A : Type 0} → (fails_while_pending : Bool) → Table → Ran A
after_raise fails [] = pending
after_raise true (entry ∷ table) = stopped
after_raise false (entry ∷ table) = pending

-- A branch on the end of a loop.
pub ran_rule {κ} :
    {A B : Type 0} (Q : B → Type κ) (r : Ran A) (x y : B) (f : A → B)
    → Q x
    → Q y
    → ((a : A) → Q (f a))
    → Q (elim r [ stopped ↦ x | pending ↦ y | ran a ↦ f a ])
ran_rule Q stopped x y f l m n = l
ran_rule Q pending x y f l m n = m
ran_rule Q (ran a) x y f l m n = n a
