-- ===== src/Examples/Lives.antt =====
-- A client's and a server's connection over the sample library, from set-up to the data that is
-- read.
use ext_ngtcp.Prelude.{◌≡◌, refl, none, some, [], ◌∷◌, ◌++◌, Bytes}
use ext_ngtcp.Platform.{Platform}
use ext_ngtcp.Config.Server.{ServerConfig}
use ext_ngtcp.Config.Server
use ext_ngtcp.Connection.State.{Connection, create_object}
use ext_ngtcp.Connection.Setup.{construct}
use ext_ngtcp.Connection.Methods.{recv}
use ext_ngtcp.Connection.Accept.Inputs.{Surroundings}
use ext_ngtcp.Connection.Accept.{accept}
use ext_ngtcp.Connection.Accept.Balance.{Balanced, accept-Balanced}
use ext_ngtcp.Stream.{read}
use ext_ngtcp.Connection.History.Reach.{Step}
use ext_ngtcp.Connection.Delivery.Buffers.{rx}
use ext_ngtcp.Connection.Delivery.Feeds.{seen}
use ext_ngtcp.Connection.Delivery.Recorded.{recorded, recorded-IsRecorded}
use ext_ngtcp.Connection.Delivery.Session.{Session, read_by, received_in_order}
use ext_ngtcp.Examples.Sample.{sample, peer_address, packet}

abbrev around : Surroundings
around = record { force_failure = none; scid = some (5 ∷ []); token = some (6 ∷ []) }

abbrev config : ServerConfig
config = record Server.create_object { cert_file = some (1 ∷ []); key_file = some (2 ∷ []) }

accept-Balanced_example : Balanced (accept sample 0 around (packet (9 ∷ [])) config)
accept-Balanced_example = accept-Balanced sample 0 around (packet (9 ∷ [])) config

-- The sample library with its record.
abbrev P : Platform
P = recorded sample

abbrev hello : Bytes
hello = b'h' ∷ b'i' ∷ []

abbrev c1 : Connection P
c1 = (construct peer_address none (some (1 ∷ [])) (some (2 ∷ [])) (create_object P 0)).1

abbrev c2 : Connection P
c2 = (recv (packet hello) c1).1

abbrev c3 : Connection P
c3 = (read 0 1 c2).1

abbrev first_read : Step c2 [] c3
first_read = Step.read 0 1

abbrev handed : Bytes
handed = ([] ++ []) ++ read_by 0 first_read

-- A client gets a packet with two bytes for stream 0, and one of them is read.
session : Session 0 handed c3
session =
    Session.call
      (Session.call (Session.client 0 peer_address none (some (1 ∷ [])) (some (2 ∷ [])))
        (Step.receive (packet hello)) refl)
      first_read refl

received_in_order_example : seen (recorded-IsRecorded sample) 0 c3.conn ≡ handed ++ rx 0 c3.streams
received_in_order_example = received_in_order (recorded-IsRecorded sample) 0 handed c3 session
