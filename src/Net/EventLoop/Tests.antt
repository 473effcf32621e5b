-- ===== src/Net/EventLoop/Tests.antt =====
-- A client that connects and makes a room.
use buzzweb_server.Common.{String, ◌≡◌, refl, true, false, some, List, [], ◌∷◌, arith}
use buzzweb_server.Common.UnorderedMap
use buzzweb_server.Common.Streams
use buzzweb_server.Domain.Room
use buzzweb_server.Domain.RoomRepository.{holds}
use buzzweb_server.Domain.InMemory
use buzzweb_server.Domain.InMemory.Refinement.{view}
use buzzweb_server.App.RoomService
use buzzweb_server.App.ControlDispatcher
use buzzweb_server.App.Json.Sample.{sample}
use buzzweb_server.App.ProtocolCodec.Decode
use buzzweb_server.App.ProtocolCodec.Tests.{message_with}
use buzzweb_server.Net.SessionRegistry
use buzzweb_server.Net.SessionRegistry.{SessionPtr}
use buzzweb_server.Net.Session
use buzzweb_server.Net.Session.{ReadResult}
use buzzweb_server.Net.EventLoop
use buzzweb_server.Net.EventLoop.{Event, started, AreOrderly}
use buzzweb_server.Net.EventLoop.Presence.{counts}
use buzzweb_server.Net.EventLoop.Reachable.{reachable}
open sample use {string}

abbrev creator : SessionPtr
creator = record { number = 1; participant_id = "p_1" }

abbrev create_message : String
create_message = message_with "create_room" (("display_name", string "Alice") ∷ [])

abbrev morning : List Event
morning =
    Event.connects creator
    ∷ Event.accepts "p_1" false
    ∷ Event.reads "p_1" (ReadResult.text_message create_message) (λ attempt. 7)
    ∷ []

morning-AreOrderly : AreOrderly sample morning started
unfolding AreOrderly EventLoop.step Session.on_web_socket_accept
morning-AreOrderly = (refl, (tt, (λ session e. ground (arith, e), tt)))

creator_inside : holds "p_1" (view (EventLoop.run sample morning started).rooms "000007") ≡ true
unfolding EventLoop.run EventLoop.step Session.on_web_socket_accept Session.on_read
    Session.handle_message Decode.decode_request Decode.decode_value Decode.decode_typed
    Decode.read_command Decode.meta_of_type Decode.required_string Decode.optional_string
    UnorderedMap.find UnorderedMap.emplace UnorderedMap.contains UnorderedMap.assign
    ControlDispatcher.dispatch ControlDispatcher.route RoomService.create_room
    RoomService.generate_room_code RoomService.join_room RoomService.join_updater InMemory.add
    InMemory.update InMemory.no_rooms Streams.text Streams.digit_char Streams.set_width
    Streams.digits Room.new_room Room.try_add_participant Room.check_secret Room.has_participant
    Session.session_handler
creator_inside = refl

reachable_example :
    (session : SessionPtr) × (SessionRegistry.find "p_1"
        (EventLoop.run sample morning started).hub.registry
      ≡ some session)
    × (session.participant_id ≡ "p_1")
    × (counts ((EventLoop.run sample morning started).sessions "p_1") ≡ true)
reachable_example = reachable sample morning "p_1" "000007" morning-AreOrderly creator_inside
