-- ===== src/Net/System/ArrivalTests.antt =====
-- A client is alone in a room when another joins it.
use buzzweb_server.Common.{
  String, ◌≡◌, ◌≢◌, refl, eq_iff, false, true, some, none, List, [], ◌∷◌, ◌++◌, arith, take,
}
use buzzweb_server.Common.Attempt.{gave}
use buzzweb_server.Common.UnorderedMap
use buzzweb_server.Common.Streams
use buzzweb_server.Domain.Participant.{ParticipantId}
use buzzweb_server.Domain.Room
use buzzweb_server.Domain.RoomRepository.{holds}
use buzzweb_server.Domain.InMemory
use buzzweb_server.Domain.InMemory.{in_memory}
use buzzweb_server.Domain.InMemory.Refinement.{view}
use buzzweb_server.App.Result.{ok}
use buzzweb_server.App.RoomServiceTypes.{ParticipantJoinedRoom}
use buzzweb_server.App.Messages.{
  ControlMessageType, CommandType, ControlDispatcherRequest, ControlDispatcherEvent,
  JoinRoomCommand, JoinedRoomEvent,
}
use buzzweb_server.App.RoomService
use buzzweb_server.App.RoomService.{join_room}
use buzzweb_server.App.ControlDispatcher
use buzzweb_server.App.Json.Sample.{sample}
use buzzweb_server.App.ProtocolCodec.Decode
use buzzweb_server.App.ProtocolCodec.Decode.{decode_request}
use buzzweb_server.App.ProtocolCodec.Encode.{encode_event}
use buzzweb_server.Net.Session
use buzzweb_server.Net.Session.{ReadResult}
use buzzweb_server.Net.Connection
use buzzweb_server.Net.Connection.{Connection, Outstanding}
use buzzweb_server.Net.System
use buzzweb_server.Net.System.{System, Event, begun, ArePossible}
use buzzweb_server.Net.System.Drained.{remaining}
use buzzweb_server.Net.System.Attended.{AreAttended}
use buzzweb_server.Net.System.Tests.{reached, found, always, create_message}
use buzzweb_server.Net.System.RelayTests.{waiting, alone, join_message}
use buzzweb_server.Net.System.Arrived.{arrival-delivered}
open sample use {Value}

abbrev join : JoinRoomCommand
join = record {
  room_code = "000007";
  participant = record { id = "p_2"; name = "Bob" };
  password_hash = none;
}

abbrev join_request : ControlDispatcherRequest Value
join_request = record {
  meta = record {
    type = ControlMessageType.join_room;
    request_id = some "r1";
    signaling_type = none;
  };
  command = CommandType.join_room join;
}

join_decoded : decode_request sample "p_2" join_message ≡ gave join_request
unfolding decode_request Decode.decode_value Decode.decode_typed Decode.read_command
    Decode.meta_of_type Decode.required_string Decode.optional_string UnorderedMap.find
join_decoded = refl

abbrev joined : ParticipantJoinedRoom
joined = record {
  room_code = "000007";
  participant = join.participant;
  room_participants = record { id = "p_1"; name = "Alice" } ∷ join.participant ∷ [];
}

abbrev member_connection : Connection
member_connection = found (alone.connections "p_1")

abbrev joiner_connection : Connection
joiner_connection = found (alone.connections "p_2")

-- before the room is made
abbrev ready : System
ready = reached (System.run sample (take 4 waiting) begun)

waiting-AreAttended : AreAttended sample waiting begun
unfolding AreAttended System.run System.step Connection.start Connection.on_web_socket_accept
    Session.on_web_socket_accept Connection.on_read Session.on_read Session.handle_message
    Decode.decode_request Decode.decode_value Decode.decode_typed Decode.read_command
    Decode.meta_of_type Decode.required_string Decode.optional_string UnorderedMap.find
    UnorderedMap.emplace UnorderedMap.contains UnorderedMap.assign ControlDispatcher.dispatch
    ControlDispatcher.route RoomService.create_room RoomService.generate_room_code
    RoomService.join_room RoomService.join_updater InMemory.add InMemory.update InMemory.no_rooms
    Streams.text Streams.digit_char Streams.set_width Streams.digits Room.new_room
    Room.try_add_participant Room.check_secret Room.has_participant Session.session_handler
waiting-AreAttended = (
  refl,
  tt,
  (
    refl,
    tt,
    (
      λ c e. ground (arith, e),
      tt,
      (
        λ c e. ground (arith, e),
        tt,
        (
          λ c e. ground (arith, e),
          λ c e. ground (arith, e),
          always (
              System.step sample
                (Event.reads "p_1" (ReadResult.text_message create_message) (λ attempt. 7)) ready),
        ),
      ),
    ),
  ),
)

outlook :
    (System.run sample waiting begun ≡ some alone)
    × (alone.connections "p_2" ≡ some joiner_connection)
    × (joiner_connection.outstanding ≡ Outstanding.read)
    × ((join_room in_memory "000007" join.participant none alone.rooms).0 ≡ ok joined)
    × (holds "p_1" (view alone.rooms "000007") ≡ true)
    × (alone.connections "p_1" ≡ some member_connection)
    × (member_connection.session.closing ≡ false)
unfolding System.run System.step Connection.start Connection.on_web_socket_accept
    Session.on_web_socket_accept Connection.on_read Session.on_read Session.handle_message
    Decode.decode_request Decode.decode_value Decode.decode_typed Decode.read_command
    Decode.meta_of_type Decode.required_string Decode.optional_string UnorderedMap.find
    UnorderedMap.emplace UnorderedMap.contains UnorderedMap.assign ControlDispatcher.dispatch
    ControlDispatcher.route RoomService.create_room RoomService.generate_room_code
    RoomService.join_room RoomService.join_updater InMemory.add InMemory.update InMemory.no_rooms
    Streams.text Streams.digit_char Streams.set_width Streams.digits Room.new_room
    Room.try_add_participant Room.check_secret Room.has_participant Session.session_handler
outlook = (refl, refl, refl, refl, refl, refl, refl)

another : ◌≢◌ {A = ParticipantId} "p_2" "p_1"
another = λ same. ground (arith, (eq_iff "p_2" "p_1").1 same)

arrival-delivered_example :
    (event : JoinedRoomEvent) × (event.room_code ≡ "000007")
    × (event.joined_participant ≡ join.participant)
    × ((next : System) × (System.step sample
            (Event.reads "p_2" (ReadResult.text_message join_message) (λ attempt. 7))
            alone
          ≡ some next)
        × ArePossible sample (remaining "p_1" next member_connection) next
        × ((last : System) × (d' : Connection) × (System.run sample
                (remaining "p_1" next member_connection)
                next
              ≡ some last)
            × (last.connections "p_1" ≡ some d')
            × ((front : List String) × (back : List String) × (d'.queue.written
                  ≡ front
                    ++ encode_event sample (ControlDispatcherEvent.joined_room event) ∷ back))))
arrival-delivered_example =
    arrival-delivered sample waiting alone "p_2" "p_1" joiner_connection member_connection
      join_message (λ attempt. 7) join_request join joined waiting-AreAttended outlook.0 outlook.1
      outlook.2 join_decoded refl outlook.3 another outlook.4 outlook.5 outlook.6
