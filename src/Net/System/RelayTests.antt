-- ===== src/Net/System/RelayTests.antt =====
-- Two clients in one room: an offer of the one reaches the other, and so does the news of his end.
use buzzweb_server.Common.{
  String, ◌≡◌, ◌≢◌, eq_iff, refl, true, false, some, List, [], ◌∷◌, ◌++◌, arith,
}
use buzzweb_server.Common.Attempt.{gave}
use buzzweb_server.Common.UnorderedMap
use buzzweb_server.Common.Streams
use buzzweb_server.Domain.Room
use buzzweb_server.Domain.RoomRepository.{holds}
use buzzweb_server.Domain.InMemory
use buzzweb_server.Domain.InMemory.Refinement.{view}
use buzzweb_server.App.Messages.{
  ControlMessageType, SignalingType, CommandType, ControlDispatcherRequest, SignalingCommand,
}
use buzzweb_server.App.RoomService
use buzzweb_server.App.ControlDispatcher
use buzzweb_server.App.Json.Sample.{sample}
use buzzweb_server.App.ProtocolCodec.Decode
use buzzweb_server.App.ProtocolCodec.Decode.{decode_request}
use buzzweb_server.App.ProtocolCodec.Encode.{encode_event, encode_signaling_event}
use buzzweb_server.App.ProtocolCodec.Tests.{message_with}
use buzzweb_server.Net.SessionRegistry.{SessionPtr}
use buzzweb_server.Net.Listener.{SessionKind}
use buzzweb_server.Net.Session
use buzzweb_server.Net.Session.{ReadResult}
use buzzweb_server.Net.Connection
use buzzweb_server.Net.Connection.{Connection, Outstanding}
use buzzweb_server.Net.System
use buzzweb_server.Net.System.{System, Event, begun, ArePossible}
use buzzweb_server.Net.System.Tests.{creator, create_message, reached, found, always}
use buzzweb_server.Net.System.Drained.{remaining}
use buzzweb_server.Net.System.Attended.{AreAttended}
use buzzweb_server.Net.System.Relayed.{relay-delivered}
use buzzweb_server.Net.System.Parted.{last_read, departure-delivered}
use buzzweb_server.Domain.Participant.{ParticipantId}
use buzzweb_server.Domain.Room.{RoomCode}
use buzzweb_server.App.Messages.{ControlDispatcherEvent, LeftRoomEvent}
open sample use {Value, object, string}

abbrev callee : SessionPtr
callee = record { number = 2; participant_id = "p_2" }

abbrev pub join_message : String
join_message =
    message_with "join_room" (("room_code", string "000007") ∷ ("display_name", string "Bob") ∷ [])

abbrev offer_message : String
offer_message =
    message_with "offer"
      (("room_code", string "000007") ∷ ("target_participant_id", string "p_2") ∷ [])

abbrev offer : SignalingCommand Value
offer = record {
  type = SignalingType.offer;
  room_code = "000007";
  from_participant_id = "p_1";
  target_participant_id = "p_2";
  payload = object (("room_code", string "000007") ∷ ("target_participant_id", string "p_2") ∷ []);
}

abbrev offer_request : ControlDispatcherRequest Value
offer_request = record {
  meta = record {
    type = ControlMessageType.signaling;
    request_id = some "r1";
    signaling_type = some SignalingType.offer;
  };
  command = CommandType.signaling offer;
}

offer_decoded : decode_request sample "p_1" offer_message ≡ gave offer_request
unfolding decode_request Decode.decode_value Decode.decode_typed Decode.read_command
    Decode.meta_of_type Decode.required_string Decode.optional_string UnorderedMap.find
offer_decoded = refl

abbrev pub waiting : List Event
waiting =
    Event.connects SessionKind.plain_session creator
    ∷ Event.connects SessionKind.plain_session callee
    ∷ Event.accepts "p_1" false
    ∷ Event.accepts "p_2" false
    ∷ Event.reads "p_1" (ReadResult.text_message create_message) (λ attempt. 7)
    ∷ []

abbrev joining : Event
joining = Event.reads "p_2" (ReadResult.text_message join_message) (λ attempt. 7)

abbrev meeting : List Event
meeting = waiting ++ joining ∷ []

abbrev met : System
met = reached (System.run sample meeting begun)

abbrev caller_connection : Connection
caller_connection = found (met.connections "p_1")

abbrev callee_connection : Connection
callee_connection = found (met.connections "p_2")

abbrev pub alone : System
alone = reached (System.run sample waiting begun)

meeting-AreAttended : AreAttended sample meeting begun
unfolding AreAttended System.run System.step Connection.start Connection.on_web_socket_accept
    Session.on_web_socket_accept Connection.on_read Session.on_read Session.handle_message
    Decode.decode_request Decode.decode_value Decode.decode_typed Decode.read_command
    Decode.meta_of_type Decode.required_string Decode.optional_string UnorderedMap.find
    UnorderedMap.emplace UnorderedMap.contains UnorderedMap.assign ControlDispatcher.dispatch
    ControlDispatcher.route RoomService.create_room RoomService.generate_room_code
    RoomService.join_room RoomService.join_updater InMemory.add InMemory.update InMemory.no_rooms
    Streams.text Streams.digit_char Streams.set_width Streams.digits Room.new_room
    Room.try_add_participant Room.check_secret Room.has_participant Session.session_handler
meeting-AreAttended = (
  refl,
  tt,
  (
    refl,
    tt,
    (
      λ c e. ground (arith, e),
      tt,
      (
        λ c e. ground (arith, e),
        tt,
        (
          λ c e. ground (arith, e),
          λ c e. ground (arith, e),
          (
            λ c e. ground (arith, e),
            λ c e. ground (arith, e),
            always (System.step sample joining alone),
          ),
        ),
      ),
    ),
  ),
)

outcome :
    (System.run sample meeting begun ≡ some met)
    × (met.connections "p_1" ≡ some caller_connection)
    × (caller_connection.outstanding ≡ Outstanding.read)
    × (holds "p_1" (view met.rooms "000007") ≡ true)
    × (holds "p_2" (view met.rooms "000007") ≡ true)
    × (met.connections "p_2" ≡ some callee_connection)
    × (callee_connection.session.closing ≡ false)
unfolding System.run System.step Connection.start Connection.on_web_socket_accept
    Session.on_web_socket_accept Connection.on_read Session.on_read Session.handle_message
    Decode.decode_request Decode.decode_value Decode.decode_typed Decode.read_command
    Decode.meta_of_type Decode.required_string Decode.optional_string UnorderedMap.find
    UnorderedMap.emplace UnorderedMap.contains UnorderedMap.assign ControlDispatcher.dispatch
    ControlDispatcher.route RoomService.create_room RoomService.generate_room_code
    RoomService.join_room RoomService.join_updater InMemory.add InMemory.update InMemory.no_rooms
    Streams.text Streams.digit_char Streams.set_width Streams.digits Room.new_room
    Room.try_add_participant Room.check_secret Room.has_participant Session.session_handler
outcome = (refl, refl, refl, refl, refl, refl, refl)

relay-delivered_example :
    (next : System) × (d1 : Connection) × (System.step sample
        (Event.reads "p_1" (ReadResult.text_message offer_message) (λ attempt. 7))
        met
      ≡ some next)
    × (next.connections "p_2" ≡ some d1)
    × ArePossible sample (remaining "p_2" next d1) next
    × ((last : System) × (d' : Connection) × (System.run sample (remaining "p_2" next d1) next
          ≡ some last)
        × (last.connections "p_2" ≡ some d')
        × ((front : List String) × (back : List String) × (d'.queue.written
              ≡ front ++ encode_signaling_event sample offer ∷ back)))
relay-delivered_example =
    relay-delivered sample meeting met "p_1" caller_connection callee_connection offer_message
      (λ attempt. 7) offer_request offer meeting-AreAttended outcome.0 outcome.1 outcome.2
      offer_decoded refl outcome.3 outcome.4 outcome.5 outcome.6

two_clients : ◌≢◌ {A = ParticipantId} "p_1" "p_2"
two_clients = λ same. ground (arith, (eq_iff "p_1" "p_2").1 same)

departure-delivered_example :
    (event : LeftRoomEvent) × (event.room_code ≡ "000007")
    × (event.left_participant_id ≡ "p_1")
    × ((next : System) × (System.step sample (Event.reads "p_1" (last_read true) (λ attempt. 7)) met
          ≡ some next)
        × ArePossible sample (remaining "p_2" next callee_connection) next
        × ((last : System) × (d' : Connection) × (System.run sample
                (remaining "p_2" next callee_connection)
                next
              ≡ some last)
            × (last.connections "p_2" ≡ some d')
            × ((front : List String) × (back : List String) × (d'.queue.written
                  ≡ front ++ encode_event sample (ControlDispatcherEvent.left_room event) ∷ back))))
departure-delivered_example =
    departure-delivered sample meeting met "p_1" "p_2" callee_connection "000007" true
      (λ attempt. 7) meeting-AreAttended outcome.0 outcome.3 outcome.4 two_clients outcome.5
      outcome.6
