-- ===== src/Net/Tests.antt =====
-- Sessions of two participants of the tests, and the theorems about sessions at these.
use buzzweb_server.Common.{
  Option, ℕ, String, ◌≡◌, ◌⊎◌, refl, true, false, none, some, List, [], ◌∷◌, ◌==◌, eq_iff, arith,
  Each, if◌then◌else◌, returned,
}
use buzzweb_server.Common.UnorderedMap
use buzzweb_server.Common.Attempt.{gave, raised}
use buzzweb_server.Domain.Participant.{ParticipantId}
use buzzweb_server.Domain.Room.{RoomCode}
use buzzweb_server.Domain.RoomRepository.{holds}
use buzzweb_server.Domain.InMemory.{in_memory}
use buzzweb_server.Domain.InMemory.Refinement.{view, in_memory-Contract}
use buzzweb_server.Domain.Tests.{open_pair, two_rooms}
use buzzweb_server.App.Messages.{ControlDispatcherRequest, JoinRoomCommand}
use buzzweb_server.App.Json.Sample.{sample}
use buzzweb_server.App.ProtocolCodec.Decode.{DecodeException, decode_request}
use buzzweb_server.App.ProtocolCodec.Tests.{join_message, join_request, join_decoded}
use buzzweb_server.Net.SessionRegistry
use buzzweb_server.Net.SessionRegistry.{SessionPtr, Registry, Change, IsKeyed, changes}
use buzzweb_server.Net.Listener
use buzzweb_server.Net.Listener.{Listener, SessionKind, Setup, Happening, new_listener, start}
use buzzweb_server.Net.Listener.Accepting.{started-run}
use buzzweb_server.Net.Session.{
  Hub, Session, ReadResult, decode_failed, handle_message, on_read, remove_from_registry,
}
use buzzweb_server.Net.Session.Delivery.{Adds}
use buzzweb_server.Net.Session.Removal.{
  IsLeaveNews, remove_from_registry-removes, unregistered_joins,
}
use buzzweb_server.Net.Session.Receivers.{IsInvolved}
use buzzweb_server.Net.Session.Replies.{handle_message-private}
use buzzweb_server.Net.Session.Answered.{IsReplied, handle_message-answered}

abbrev alice_session : SessionPtr
alice_session = record { number = 1; participant_id = "p_a" }

abbrev bob_session : SessionPtr
bob_session = record { number = 2; participant_id = "p_b" }

abbrev carol_session : SessionPtr
carol_session = record { number = 3; participant_id = "p_c" }

abbrev registry : Registry
registry = ("p_a", alice_session) ∷ ("p_b", bob_session) ∷ []

abbrev hub : Hub
hub = record { registry = registry; sent = [] }

abbrev draw : ℕ → ℕ
draw attempt = 8

registry-IsKeyed : IsKeyed registry
unfolding SessionRegistry.find UnorderedMap.find
registry-IsKeyed p session e = ground (arith, e, eq_iff "p_a" p, eq_iff "p_b" p)

abbrev carol : Session
carol = record { self = carol_session; registered = false; closing = true }

abbrev alice_online : Session
alice_online = record { self = alice_session; registered = true; closing = false }

handle_message-private_example :
    ((handle_message sample in_memory draw carol_session join_message (two_rooms, hub)).0
      ≡ returned tt)
    × Adds
        (λ delivery.
          IsInvolved sample carol_session
            (view two_rooms)
            (view
              (handle_message sample in_memory draw carol_session join_message
                (two_rooms, hub)).1.0)
            delivery.0)
        hub
        (handle_message sample in_memory draw carol_session join_message (two_rooms, hub)).1.1
handle_message-private_example =
    handle_message-private sample in_memory-Contract draw carol_session two_rooms hub join_message
      registry-IsKeyed

handle_message-answered_example :
    ((handle_message sample in_memory draw carol_session join_message (two_rooms, hub)).0
      ≡ returned tt)
    × (((e : DecodeException) × (decode_request sample "p_c" join_message ≡ raised e)
          × ((handle_message sample in_memory draw carol_session join_message (two_rooms, hub)).1
              ≡ (two_rooms, record hub { sent = (carol_session, decode_failed sample e) ∷ [] })))
        ⊎ ((request : ControlDispatcherRequest String) × (decode_request sample "p_c" join_message
              ≡ gave request)
            × IsReplied sample carol_session request.meta hub
                (handle_message sample in_memory draw carol_session join_message
                  (two_rooms, hub)).1.1))
handle_message-answered_example =
    handle_message-answered sample in_memory draw carol_session join_message two_rooms hub

abbrev command : JoinRoomCommand
command = record {
  room_code = "000042";
  participant = record { id = "p_c"; name = "Carol" };
  password_hash = none;
}

open_pair_stored : view two_rooms "000042" ≡ some open_pair
unfolding UnorderedMap.find
open_pair_stored = refl

unregistered_joins_example :
    holds "p_c" (
      view
        (on_read sample in_memory draw ReadResult.closed carol
          (on_read sample in_memory draw
            (ReadResult.text_message join_message)
            carol
            (two_rooms, hub)).1).1.0
        "000042")
    ≡ true
unregistered_joins_example =
    unregistered_joins sample in_memory-Contract draw carol two_rooms hub join_message join_request
      command open_pair refl join_decoded refl refl open_pair_stored refl

remove_from_registry-removes_example :
    let ended = remove_from_registry sample in_memory draw alice_online (two_rooms, hub) in
    (ended.0.registered ≡ false)
    × ((q : ParticipantId)
        → SessionRegistry.find q ended.1.1.registry
          ≡ (if "p_a" == q then none else SessionRegistry.find q registry))
    × ((q : ParticipantId) (code : RoomCode)
        → holds q (view ended.1.0 code)
          ≡ (if "p_a" == q then false else holds q (view two_rooms code)))
    × ((more : List (SessionPtr × String)) × (ended.1.1.sent ≡ more)
        × Each (IsLeaveNews sample "p_a" (view two_rooms)) more)
    × (remove_from_registry sample in_memory draw ended.0 ended.1 ≡ ended)
remove_from_registry-removes_example =
    remove_from_registry-removes sample in_memory-Contract draw alice_online two_rooms hub refl
      registry-IsKeyed

abbrev set_up_well : Setup → Option String
set_up_well call = none

abbrev idle : Listener
idle = record { is_open = true; pending = 0; tls_enabled = true; started = [] }

idle_made : new_listener set_up_well true ≡ returned idle
unfolding new_listener
idle_made = refl

abbrev evening : List Happening
evening =
    Happening.accepted ∷ Happening.accept_failed ∷ Happening.accepted ∷ Happening.stopped
    ∷ Happening.accepted ∷ []

started-run_example :
    ((Listener.run evening (start idle)).started
      ≡ SessionKind.ssl_session ∷ SessionKind.ssl_session ∷ [])
    × ((Listener.run evening (start idle)).is_open ≡ true
        → (Listener.run evening (start idle)).pending ≡ 1)
started-run_example = started-run set_up_well true idle evening idle_made
