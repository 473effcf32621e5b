-- ===== src/Net/System/Tests.antt =====
-- A client that connects without TLS, makes a room, and is told so.
use buzzweb_server.Common.{
  ◌≤◌, String, ◌≡◌, refl, true, false, Option, none, some, List, [], ◌∷◌, ◌++◌, arith, take,
}
use buzzweb_server.Common.UnorderedMap
use buzzweb_server.Common.Streams
use buzzweb_server.Domain.Participant.{ParticipantId}
use buzzweb_server.Domain.Room
use buzzweb_server.Domain.RoomRepository.{holds}
use buzzweb_server.Domain.InMemory
use buzzweb_server.Domain.InMemory.Refinement.{view}
use buzzweb_server.App.RoomService
use buzzweb_server.App.ControlDispatcher
use buzzweb_server.App.Json.Sample.{sample}
use buzzweb_server.App.ProtocolCodec.Decode
use buzzweb_server.App.ProtocolCodec.Tests.{message_with}
use buzzweb_server.Net.SessionRegistry
use buzzweb_server.Net.SessionRegistry.{SessionPtr}
use buzzweb_server.Net.Listener.{SessionKind}
use buzzweb_server.Net.Session
use buzzweb_server.Net.Session.{ReadResult}
use buzzweb_server.Net.Connection
use buzzweb_server.Net.Connection.{Connection, Outstanding}
use buzzweb_server.Net.System
use buzzweb_server.Net.System.{System, Event, begun, ArePossible}
use buzzweb_server.Net.System.Posts.{messages_to}
use buzzweb_server.Net.System.Delivered.{run-delivers}
use buzzweb_server.Net.System.Drained.{remaining, remaining-delivers}
use buzzweb_server.Net.System.Replied.{IsAnswer, read_on, read-answered}
use buzzweb_server.Net.System.Attended.{AreAttended, members-attended}
open sample use {string}

abbrev pub creator : SessionPtr
creator = record { number = 1; participant_id = "p_1" }

abbrev pub create_message : String
create_message = message_with "create_room" (("display_name", string "Alice") ∷ [])

abbrev morning : List Event
morning =
    Event.connects SessionKind.plain_session creator
    ∷ Event.accepts "p_1" false
    ∷ Event.reads "p_1" (ReadResult.text_message create_message) (λ attempt. 7)
    ∷ []

abbrev pub reached : Option System → System
reached none = begun
reached (some system) = system

abbrev at_noon : System
at_noon = reached (System.run sample morning begun)

abbrev pub found : Option Connection → Connection
found none = System.new_connection SessionKind.plain_session creator
found (some c) = c

abbrev creator_connection : Connection
creator_connection = found (at_noon.connections "p_1")

pub always : (o : Option System) → System.Afterwards (λ system. Unit {0}) o
always none = tt
always (some system) = tt

morning-ArePossible : ArePossible sample morning begun
unfolding ArePossible System.step Connection.start Connection.on_web_socket_accept
    Session.on_web_socket_accept
morning-ArePossible = (refl, (λ c e. ground (arith, e), (λ c e. ground (arith, e), always _)))

morning-AreAttended : AreAttended sample morning begun
unfolding AreAttended System.step Connection.start Connection.on_web_socket_accept
    Session.on_web_socket_accept
morning-AreAttended = (
  refl,
  tt,
  (λ c e. ground (arith, e), tt, (λ c e. ground (arith, e), λ c e. ground (arith, e), always _)),
)

noon :
    (System.run sample morning begun ≡ some at_noon)
    × (at_noon.connections "p_1" ≡ some creator_connection)
    × (creator_connection.session.closing ≡ false)
    × (holds "p_1" (view at_noon.rooms "000007") ≡ true)
unfolding System.run System.step Connection.start Connection.on_web_socket_accept
    Session.on_web_socket_accept Connection.on_read Session.on_read Session.handle_message
    Decode.decode_request Decode.decode_value Decode.decode_typed Decode.read_command
    Decode.meta_of_type Decode.required_string Decode.optional_string UnorderedMap.find
    UnorderedMap.emplace UnorderedMap.contains UnorderedMap.assign ControlDispatcher.dispatch
    ControlDispatcher.route RoomService.create_room RoomService.generate_room_code
    RoomService.join_room RoomService.join_updater InMemory.add InMemory.update InMemory.no_rooms
    Streams.text Streams.digit_char Streams.set_width Streams.digits Room.new_room
    Room.try_add_participant Room.check_secret Room.has_participant Session.session_handler
noon = (refl, refl, refl, refl)

run-delivers_example :
    (system : System) × (System.run sample morning begun ≡ some system)
    × ((p : ParticipantId) (c : Connection)
        → system.connections p ≡ some c
        → (c.queue.written ++ c.queue.write_queue
            ≡ messages_to p (take system.executed system.hub.sent))
          × (c.session.registered ≡ true → c.outstanding ≡ Outstanding.read)
          × (c.session.closing ≡ false → c.queue.in_flight ≡ false → c.queue.write_queue ≡ [])
          × (c.close_frames ≤ 1))
run-delivers_example = run-delivers sample morning morning-ArePossible

remaining-delivers_example :
    ArePossible sample (remaining "p_1" at_noon creator_connection) at_noon
    × ((last : System) × (c' : Connection) × (System.run sample
            (remaining "p_1" at_noon creator_connection)
            at_noon
          ≡ some last)
        × (last.hub ≡ at_noon.hub)
        × (last.connections "p_1" ≡ some c')
        × (c'.queue.write_queue ≡ [])
        × (c'.queue.written ≡ messages_to "p_1" at_noon.hub.sent))
remaining-delivers_example =
    remaining-delivers sample morning at_noon "p_1" creator_connection morning-ArePossible noon.0
      noon.1 noon.2

members-attended_example :
    (c : Connection) × (at_noon.connections "p_1" ≡ some c)
    × (c.session.registered ≡ true)
    × (c.outstanding ≡ Outstanding.read)
    × ((session : SessionPtr) × (SessionRegistry.find "p_1" at_noon.hub.registry ≡ some session)
        × (session.participant_id ≡ "p_1"))
members-attended_example =
    members-attended sample morning at_noon "p_1" "000007" morning-AreAttended noon.0 noon.3

abbrev opening : List Event
opening = Event.connects SessionKind.plain_session creator ∷ Event.accepts "p_1" false ∷ []

abbrev at_dawn : System
at_dawn = reached (System.run sample opening begun)

abbrev new_connection : Connection
new_connection = found (at_dawn.connections "p_1")

opening-ArePossible : ArePossible sample opening begun
unfolding ArePossible System.step Connection.start
opening-ArePossible = (refl, (λ c e. ground (arith, e), always _))

dawn :
    (System.run sample opening begun ≡ some at_dawn)
    × (at_dawn.connections "p_1" ≡ some new_connection)
    × (new_connection.session.closing ≡ false)
    × (new_connection.outstanding ≡ Outstanding.read)
unfolding System.run System.step Connection.start Connection.on_web_socket_accept
    Session.on_web_socket_accept
dawn = (refl, refl, refl, refl)

read-answered_example :
    (next : System) × (System.step sample
        (Event.reads "p_1" (ReadResult.text_message create_message) (λ attempt. 7))
        at_dawn
      ≡ some next)
    × (next.connections "p_1" ≡ some (read_on new_connection))
    × ArePossible sample (remaining "p_1" next (read_on new_connection)) next
    × ((last : System) × (c' : Connection) × (System.run sample
            (remaining "p_1" next (read_on new_connection))
            next
          ≡ some last)
        × (last.connections "p_1" ≡ some c')
        × ((front : List String) × (reply : String) × (back : List String) × IsAnswer sample "p_1"
              create_message reply
            × (c'.queue.written ≡ front ++ reply ∷ back)))
read-answered_example =
    read-answered sample opening at_dawn "p_1" new_connection create_message (λ attempt. 7)
      opening-ArePossible dawn.0 dawn.1 dawn.2 dawn.3
