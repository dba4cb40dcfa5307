-- ===== src/Examples/Parts.antt =====
-- The theorems on single components, at small inputs.
use ext_ngtcp.Prelude.{
  ℕ, ◌+◌, ◌<◌, ◌≡◌, refl, true, false, none, some, List, [], ◌∷◌, ◌++◌, Bytes, length, ◌&&◌, ◌||◌,
  not, ◌==◌, if◌then◌else◌, arith, i64_min,
}
use ext_ngtcp.Address.{Address}
use ext_ngtcp.Address.Parse.{
  from_string, parse_endpoint, parse_plain, split_at, with_port, parse_port, strtol, skip_space,
  is_space, sign, starts_with_digit, is_digit, read_digits, saturate,
}
use ext_ngtcp.Address.RoundTrip.{Without, from_string-print}
use ext_ngtcp.Address.Accepted.{Usable, from_string-Usable}
use ext_ngtcp.Prelude.{show_ℕ, c_string}
use ext_ngtcp.Buffer.{contents}
use ext_ngtcp.Buffer.Pipe.{arrive, ask, run, arrived, run_conserves}
use ext_ngtcp.Connection.State.{StreamEntry, stream_entry_alloc}
use ext_ngtcp.Connection.Transmit.{account, tx_len}
use ext_ngtcp.Connection.Transmit.Accounting.{
  InBuffer, Traffic, written, accounted, carry, all_written, unsent, carry_conserves, account_fin,
}
use ext_ngtcp.Queue.{Event, EventQueue, Heap, store, init, push, pop, drain}
use ext_ngtcp.Tls.{Gnutls, no_tls, h3, init_client, init_server, cleanup}
use ext_ngtcp.Tls.Handles.{Owned, handles-Owned}
use ext_ngtcp.Config.{is_empty_string}
use ext_ngtcp.Config.Client
use ext_ngtcp.Config.Server
use ext_ngtcp.Config.Proper.{ClientUse, ServerUse, client_uses, server_uses, strings_given}
use ext_ngtcp.Queue.Refinement.{
  Represents, push-Represents, pop-Represents, drain-Represents, released,
}

abbrev greeting : Bytes
greeting = b'h' ∷ b'i' ∷ []

run_conserves_example :
    let uses = arrive greeting ∷ ask 1 ∷ arrive (33 ∷ []) ∷ ask 9 ∷ [] in
    (run none uses).0 ++ contents (run none uses).1 ≡ [] ++ arrived uses
unfolding contents
run_conserves_example = run_conserves none (arrive greeting ∷ ask 1 ∷ arrive (33 ∷ []) ∷ ask 9 ∷ [])

abbrev entry : StreamEntry
entry = record (stream_entry_alloc 4) { tx_buffer = some greeting; fin_pending = true }

entry-InBuffer : InBuffer entry
unfolding contents stream_entry_alloc
entry-InBuffer = record { offset = omega arith; allocated = omega arith }

abbrev traffic : List Traffic
traffic = accounted 1 false true ∷ written (33 ∷ []) ∷ accounted 2 true true ∷ []

room_left : tx_len entry + length (all_written traffic) < i64_min
unfolding contents all_written stream_entry_alloc
room_left = omega arith

carry_conserves_example :
    (carry entry traffic).0 ++ unsent (carry entry traffic).1 ≡ unsent entry ++ all_written traffic
carry_conserves_example = carry_conserves entry traffic entry-InBuffer room_left

account_fin_example :
    let e' = account 2 true true entry in
    let out = true && true && entry.fin_pending && length (unsent e') == 0 in
    (e'.fin_sent ≡ (entry.fin_sent || out)) × (e'.fin_pending ≡ (entry.fin_pending && not out))
account_fin_example = account_fin entry entry-InBuffer 2 true true

abbrev event_of : ℕ → Event
event_of n = record {
  type = 11;
  stream_id = n;
  error_code = 0;
  by_peer = true;
  reason = none;
  timestamp = n;
}

-- One event is queued, in the node at address 8.
abbrev heap : Heap
heap a = if 8 == a then some (record { event = event_of 1; next = 0 }) else none

abbrev queue : EventQueue
queue = record { head = 8; tail = 8; size = 1 }

queue-Represents : Represents heap queue ((8, event_of 1) ∷ [])
queue-Represents = record {
  at_head = refl;
  at_tail = refl;
  at_size = refl;
  linked = (omega arith, refl, tt, tt);
}

push-Represents_example :
    (h' : Heap) × (q' : EventQueue) × (push 24 (event_of 2) heap queue ≡ some (tt, h', q'))
    × Represents h' q' (((8, event_of 1) ∷ []) ++ (24, event_of 2) ∷ [])
push-Represents_example =
    push-Represents heap queue ((8, event_of 1) ∷ []) 24 (event_of 2) queue-Represents (omega arith)
      refl

pop-Represents_example :
    (q' : EventQueue) × (pop heap queue ≡ some (some (event_of 1), store heap 8 none, q'))
    × Represents (store heap 8 none) q' []
pop-Represents_example = pop-Represents heap queue 8 (event_of 1) [] queue-Represents

drain-Represents_example :
    drain 2 heap queue ≡ some (event_of 1 ∷ [], released heap ((8, event_of 1) ∷ []), init)
drain-Represents_example =
    drain-Represents heap queue ((8, event_of 1) ∷ []) 2 queue-Represents (omega arith)

abbrev somewhere : Address
somewhere = record { host = b'h' ∷ []; port = 443 }

-- The configuration of TLS that fails at the protocol names.
abbrev refusing : Gnutls
refusing = record {
  allocate_credentials = true;
  set_x509_key_file = λ cert_file key_file. true;
  init = true;
  priority_set_direct = true;
  configure_session = true;
  credentials_set = true;
  alpn_set_protocols = λ alpn. false;
}

handles-Owned_example :
    (let r = init_client refusing h3 no_tls in Owned r.1 × (r.1.cred ≡ r.0) × (r.1.session ≡ r.0))
    × (let r = init_server refusing greeting greeting h3 no_tls in
        Owned r.1 × (r.1.cred ≡ r.0) × (r.1.session ≡ r.0))
    × (Owned no_tls → cleanup no_tls ≡ no_tls)
handles-Owned_example = handles-Owned refusing greeting greeting h3 no_tls

abbrev client_calls : List ClientUse
client_calls =
    ClientUse.construct none (some []) none ∷ ClientUse.with_server_name (some greeting) ∷ []

abbrev server_calls : List ServerUse
server_calls = ServerUse.with_certificate greeting [] ∷ ServerUse.with_alpn (some greeting) ∷ []

strings_given_example :
    (let c = client_uses client_calls Client.create_object in
      (is_empty_string c.server_name ≡ false) × (is_empty_string c.alpn ≡ false))
    × (let s = server_uses server_calls Server.create_object in
        (is_empty_string s.cert_file ≡ false)
        × (is_empty_string s.key_file ≡ false)
        × (is_empty_string s.alpn ≡ false))
strings_given_example = strings_given client_calls server_calls

from_string-print_example :
    ((b'h' == b'[') ≡ false
      → Without b':' (b'h' ∷ [])
      → from_string ((b'h' ∷ []) ++ b':' ∷ show_ℕ 443)
        ≡ some (record { host = b'h' ∷ []; port = 443 }))
    × (Without b']' (b'h' ∷ [])
        → from_string (b'[' ∷ (b'h' ∷ []) ++ b']' ∷ b':' ∷ show_ℕ 443)
          ≡ some (record { host = b'h' ∷ []; port = 443 }))
from_string-print_example = from_string-print b'h' [] 443 (omega arith) (refl, tt)

from_string-Usable_example : Usable (from_string (b'h' ∷ b':' ∷ b'8' ∷ []))
from_string-Usable_example = from_string-Usable (b'h' ∷ b':' ∷ b'8' ∷ [])

-- A space and a sign in front of the port are taken.
reads_signed_port :
    from_string (b'h' ∷ b':' ∷ 32 ∷ b'+' ∷ b'8' ∷ []) ≡ some (record { host = b'h' ∷ []; port = 8 })
unfolding from_string parse_endpoint parse_plain split_at with_port parse_port strtol skip_space
    is_space sign starts_with_digit is_digit read_digits saturate c_string
reads_signed_port = refl
