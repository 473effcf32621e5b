-- ===== src/App/ProtocolCodec/Events.antt =====
-- What a client reads in the events that the server encodes.
use buzzweb_server.Common.{String, ◌≡◌, some, List, [], ◌∷◌, ◌==◌, arith, map, if◌then◌else◌}
use buzzweb_server.Common.UnorderedMap.{find}
use buzzweb_server.Domain.Participant.{Participant}
use buzzweb_server.App.Json.{Json, JsonLaws}
use buzzweb_server.App.Messages.{JoinedRoomEvent, LeftRoomEvent, ControlDispatcherEvent}
use buzzweb_server.App.ProtocolCodec.Encode.{
  participant_to_json, participants_to_json, event_payload, event_to_json, encode_event,
}

module _ (json : Json) where
  open json use {Value, at, string}

  -- The value has the id and the name of the participant.
  abbrev pub IsParticipant : Value → Participant → Type 0
  IsParticipant v participant =
      (at v "participant_id" ≡ some (string participant.id))
      × (at v "display_name" ≡ some (string participant.name))

  -- The values are the participants, one after another.
  abbrev pub AreParticipants : List Value → List Participant → Type 0
  AreParticipants [] [] = Unit {0}
  AreParticipants (v ∷ values) (participant ∷ participants) =
      IsParticipant v participant × AreParticipants values participants
  AreParticipants _ _ = ⊥

module _ (json : Json) (laws : JsonLaws json) where
  open json use {Value, parse, at, string, array}

  participant_to_json-IsParticipant :
      (participant : Participant)
      → IsParticipant json (participant_to_json json participant) participant
  unfolding participant_to_json find
  participant_to_json-IsParticipant participant =
      (laws.at-object _ "participant_id", laws.at-object _ "display_name")

  participants_to_json-AreParticipants :
      (participants : List Participant)
      → AreParticipants json (map (participant_to_json json) participants) participants
  participants_to_json-AreParticipants [] = tt
  participants_to_json-AreParticipants (participant ∷ participants) = (
    participant_to_json-IsParticipant participant,
    participants_to_json-AreParticipants participants,
  )

  at-event :
      (room_code : String) (participants : List Participant) (key : String) (v : Value)
      (field : String)
      → at (json.assign (event_payload json room_code participants) key v) field ≡ (
          if key == field
          then some v
          else find field (
              ("room_code", string room_code)
              ∷ ("participants", participants_to_json json participants)
              ∷ []))
  at-event room_code participants key v field = ground (
    arith,
    laws.at-assign (event_payload json room_code participants) key v field
        (laws.is_object-object _),
    laws.at-object
        (("room_code", string room_code)
          ∷ ("participants", participants_to_json json participants)
          ∷ [])
        field,
  )

  -- The text of an event is an object with the kind of the event as its `type` and a `payload` that
  -- has the code of the room, the receivers with their ids and names, in their order, as its
  -- `participants`, and the participant who has joined, or the id of the participant who has left.
  pub encoded_event :
      ((event : JoinedRoomEvent)
        → (v payload participant : Value) × (values : List Value) × (parse
              (encode_event json (ControlDispatcherEvent.joined_room event))
            ≡ some v)
          × (at v "type" ≡ some (string "participant_joined"))
          × (at v "payload" ≡ some payload)
          × (at payload "room_code" ≡ some (string event.room_code))
          × (at payload "participants" ≡ some (array values))
          × AreParticipants json values event.event_receivers
          × (at payload "participant" ≡ some participant)
          × IsParticipant json participant event.joined_participant)
      × ((event : LeftRoomEvent)
          → (v payload : Value) × (values : List Value) × (parse
                (encode_event json (ControlDispatcherEvent.left_room event))
              ≡ some v)
            × (at v "type" ≡ some (string "participant_left"))
            × (at v "payload" ≡ some payload)
            × (at payload "room_code" ≡ some (string event.room_code))
            × (at payload "participants" ≡ some (array values))
            × AreParticipants json values event.event_receivers
            × (at payload "participant_id" ≡ some (string event.left_participant_id)))
  unfolding encode_event event_to_json participants_to_json find
  encoded_event = (
    λ event.
        let participant = participant_to_json json event.joined_participant in
        let told = at-event event.room_code event.event_receivers "participant" participant in
        (
          _,
          json.assign (event_payload json event.room_code event.event_receivers) "participant"
              participant,
          participant,
          map (participant_to_json json) event.event_receivers,
          laws.parse-dump _,
          laws.at-object _ "type",
          laws.at-object _ "payload",
          told "room_code",
          told "participants",
          participants_to_json-AreParticipants event.event_receivers,
          told "participant",
          participant_to_json-IsParticipant event.joined_participant,
        ),
    λ event.
        let told =
          at-event event.room_code event.event_receivers "participant_id"
            (string event.left_participant_id) in
        (
          _,
          json.assign (event_payload json event.room_code event.event_receivers) "participant_id"
              (string event.left_participant_id),
          map (participant_to_json json) event.event_receivers,
          laws.parse-dump _,
          laws.at-object _ "type",
          laws.at-object _ "payload",
          told "room_code",
          told "participants",
          participants_to_json-AreParticipants event.event_receivers,
          told "participant_id",
        ),
  )
