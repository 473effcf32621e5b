-- ===== src/Net/Session/News.antt =====
-- Who is told of the end of a session, in `DeliverEvents` and `RemoveFromRegistry` of Session.cpp.
use buzzweb_server.Common.{
  ℕ, String, ◌≡◌, ◌≢◌, refl, sym, ap, ◌∙◌, Bool, true, false, Option, none, some, List, [], ◌∷◌,
  ◌++◌, ◌==◌, eq_iff, arith, inl, inr, Bool-cases, Each, any_of,
}
use mathlib.Core.List.{append_assoc}
use buzzweb_server.Domain.Participant.{Participant, ParticipantId}
use buzzweb_server.Domain.Room.{Room, RoomCode, has_id, has_participant}
use buzzweb_server.Domain.Room.Membership
use buzzweb_server.Domain.RoomRepository.{RoomRepository, Contract, holds}
use buzzweb_server.App.Messages.{ControlDispatcherEvent, LeftRoomEvent}
use buzzweb_server.App.ControlDispatcher.Departure.{Announces, is_about, disconnected_announced}
use buzzweb_server.App.Json.{Json}
use buzzweb_server.App.ProtocolCodec.Encode.{encode_event}
use buzzweb_server.Net.SessionRegistry
use buzzweb_server.Net.SessionRegistry.{SessionPtr, Registry, find-remove}
use buzzweb_server.Net.Session.{
  Hub, Session, hand_if, deliver_to, deliver_event, deliver_events, remove_from_registry,
}

-- The delivery is among the posts.
abbrev pub Has : SessionPtr × String → List (SessionPtr × String) → Type 0
Has delivery posts =
    (front : List (SessionPtr × String)) × (back : List (SessionPtr × String)) × (posts
      ≡ front ++ delivery ∷ back)

Has-append :
    (delivery : SessionPtr × String) (posts more : List (SessionPtr × String))
    → Has delivery posts
    → Has delivery (posts ++ more)
Has-append delivery posts more (front, back, e) =
    (front, back ++ more, ap (λ l. l ++ more) e ∙ append_assoc front (delivery ∷ back) more)

hand_if-Has :
    (delivery : SessionPtr × String) (o : Option SessionPtr) (message : String) (hub : Hub)
    → Has delivery hub.sent
    → Has delivery (hand_if o message hub).sent
hand_if-Has delivery none message hub h = h
hand_if-Has delivery (some session) message hub h = Has-append delivery hub.sent _ h

hand_if-registry :
    (o : Option SessionPtr) (message : String) (hub : Hub)
    → (hand_if o message hub).registry ≡ hub.registry
hand_if-registry none message hub = refl
hand_if-registry (some session) message hub = refl

deliver_to-Has :
    (delivery : SessionPtr × String) (skip : Participant → Bool) (message : String)
    (receivers : List Participant) (hub : Hub)
    → Has delivery hub.sent
    → Has delivery (deliver_to skip message receivers hub).sent
unfolding deliver_to
deliver_to-Has delivery skip message [] hub h = h
deliver_to-Has delivery skip message (x ∷ receivers) hub h = elim (Bool-cases (skip x)) [
  | inl hit ↦ rw (hit, deliver_to) (deliver_to-Has delivery skip message receivers hub h)
  | inr miss ↦
      rw (miss, deliver_to)
        (deliver_to-Has delivery skip message receivers
          (hand_if (SessionRegistry.find x.id hub.registry) message hub)
          (hand_if-Has delivery (SessionRegistry.find x.id hub.registry) message hub h))
]

deliver_to-registry :
    (skip : Participant → Bool) (message : String) (receivers : List Participant) (hub : Hub)
    → (deliver_to skip message receivers hub).registry ≡ hub.registry
unfolding deliver_to
deliver_to-registry skip message [] hub = refl
deliver_to-registry skip message (x ∷ receivers) hub = elim (Bool-cases (skip x)) [
  | inl hit ↦ rw (hit, deliver_to) (deliver_to-registry skip message receivers hub)
  | inr miss ↦
      let found = SessionRegistry.find x.id hub.registry in
      rw (miss, deliver_to)
        (deliver_to-registry skip message receivers (hand_if found message hub)
          ∙ hand_if-registry found message hub)
]

-- Whoever is among the receivers, is not left out, and is connected is sent the message.
pub deliver_to-reaches :
    (skip : Participant → Bool) (message : String) (receivers : List Participant) (hub : Hub)
    (q : ParticipantId) (session : SessionPtr)
    → ((x : Participant) → x.id ≡ q → skip x ≡ false)
    → any_of (has_id q) receivers ≡ true
    → SessionRegistry.find q hub.registry ≡ some session
    → Has (session, message) (deliver_to skip message receivers hub).sent
unfolding deliver_to
deliver_to-reaches skip message [] hub q session meant among found = absurd (ground (arith, among))
deliver_to-reaches skip message (x ∷ receivers) hub q session meant among found =
    let next = hand_if (SessionRegistry.find x.id hub.registry) message hub in
    elim (Bool-cases (x.id == q)) [
      | inl same ↦
          let own = (eq_iff x.id q).0 same in
          let here : SessionRegistry.find x.id hub.registry ≡ some session = rw own found in
          rw (meant x own, deliver_to)
            (deliver_to-Has (session, message) skip message receivers next
              (rw here (hub.sent, [], refl)))
      | inr other ↦
          let rest : any_of (has_id q) receivers ≡ true = ground (arith, among, other) in
          elim (Bool-cases (skip x)) [
            | inl hit ↦
                rw (hit, deliver_to)
                  (deliver_to-reaches skip message receivers hub q session meant rest found)
            | inr miss ↦
                rw (miss, deliver_to)
                  (deliver_to-reaches skip message receivers next q session meant rest (
                    rw (hand_if-registry (SessionRegistry.find x.id hub.registry) message hub)
                      found))
          ]
    ]

module _ (json : Json) where
  deliver_event-Has :
      (delivery : SessionPtr × String) (event : ControlDispatcherEvent) (hub : Hub)
      → Has delivery hub.sent
      → Has delivery (deliver_event json event hub).sent
  unfolding deliver_event
  deliver_event-Has delivery (ControlDispatcherEvent.joined_room event) hub h =
      deliver_to-Has delivery (λ participant. participant.id == event.joined_participant.id)
        (encode_event json (ControlDispatcherEvent.joined_room event)) event.event_receivers hub h
  deliver_event-Has delivery (ControlDispatcherEvent.left_room event) hub h =
      deliver_to-Has delivery (λ participant. false)
        (encode_event json (ControlDispatcherEvent.left_room event)) event.event_receivers hub h

  deliver_events-Has :
      (delivery : SessionPtr × String) (events : List ControlDispatcherEvent) (hub : Hub)
      → Has delivery hub.sent
      → Has delivery (deliver_events json events hub).sent
  unfolding deliver_events
  deliver_events-Has delivery [] hub h = h
  deliver_events-Has delivery (event ∷ events) hub h =
      deliver_events-Has delivery events (deliver_event json event hub)
        (deliver_event-Has delivery event hub h)

  module _ (p q : ParticipantId) (differ : p ≢ q) (stored : RoomCode → Option Room)
      (code : RoomCode) (inside : holds q (stored code) ≡ true) (session : SessionPtr) where
    -- The news that `p` has left the room are posted to the session.
    abbrev pub IsTold : List (SessionPtr × String) → Type 0
    IsTold posts =
        (event : LeftRoomEvent) × (event.room_code ≡ code)
        × (event.left_participant_id ≡ p)
        × Has (session, encode_event json (ControlDispatcherEvent.left_room event)) posts

    stays_among :
        (event : LeftRoomEvent)
        → Announces p stored (ControlDispatcherEvent.left_room event)
        → event.room_code ≡ code
        → any_of (has_id q) event.event_receivers ≡ true
    unfolding has_participant
    stays_among event (room, here, was_inside, left, receivers) same =
        let own : any_of (has_id q) room.participants ≡ true =
          ap (holds q) (sym (ap stored (sym same) ∙ here)) ∙ inside in
        ground (
          arith,
          receivers,
          own,
          differ,
          eq_iff p q,
          Membership.has_participant-remove p q room.participants,
        )

    deliver_events-tells :
        (events : List ControlDispatcherEvent) (hub : Hub)
        → Each (Announces p stored) events
        → any_of (is_about code) events ≡ true
        → SessionRegistry.find q hub.registry ≡ some session
        → IsTold (deliver_events json events hub).sent
    unfolding deliver_events deliver_event
    deliver_events-tells [] hub all about found = absurd (ground (arith, about))
    deliver_events-tells (ControlDispatcherEvent.joined_room event ∷ events) hub all about found =
        absurd all.0
    deliver_events-tells (ControlDispatcherEvent.left_room event ∷ events) hub all about found =
        let message = encode_event json (ControlDispatcherEvent.left_room event) in
        let next = deliver_to (λ participant. false) message event.event_receivers hub in
        elim (Bool-cases (event.room_code == code)) [
          | inl same ↦
              let here = (eq_iff event.room_code code).0 same in
              (
                event,
                here,
                all.0.3,
                deliver_events-Has (session, message) events next
                    (deliver_to-reaches (λ participant. false) message event.event_receivers hub q
                      session (λ x own. refl) (stays_among event all.0 here) found),
              )
          | inr other ↦ deliver_events-tells events next all.1 (ground (arith, about, other)) (
              ap (SessionRegistry.find q)
                (deliver_to-registry (λ participant. false) message event.event_receivers hub)
              ∙ found)
        ]

  -- When a registered session ends, everyone else who is in a room with its participant and is
  -- connected is sent the news that the participant has left that room.
  pub remove_from_registry-tells :
      {S : Type 0} {repository : RoomRepository S} {view : S → RoomCode → Option Room}
      (contract : Contract repository view) (draw : ℕ → ℕ) (ending : Session) (s : S) (hub : Hub)
      (q : ParticipantId) (code : RoomCode) (session : SessionPtr)
      → ending.registered ≡ true
      → ending.self.participant_id ≢ q
      → holds ending.self.participant_id (view s code) ≡ true
      → holds q (view s code) ≡ true
      → SessionRegistry.find q hub.registry ≡ some session
      → (event : LeftRoomEvent) × (event.room_code ≡ code)
        × (event.left_participant_id ≡ ending.self.participant_id)
        × Has
            (session, encode_event json (ControlDispatcherEvent.left_room event))
            (remove_from_registry json repository draw ending (s, hub)).1.1.sent
  unfolding remove_from_registry
  remove_from_registry-tells contract draw ending s hub q code session registered differ leaving
        inside found =
      let p = ending.self.participant_id in
      let left_hub = record hub { registry = SessionRegistry.remove p hub.registry } in
      let (events, e, announced, all, holding) = disconnected_announced contract p s in
      rw (registered, e)
        (deliver_events-tells p q differ _ code inside session events left_hub announced
          (all code ∙ leaving)
          (find-remove p q hub.registry ∙ ground (arith, differ, eq_iff p q, found)))
