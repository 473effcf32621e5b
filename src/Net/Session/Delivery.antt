-- ===== src/Net/Session/Delivery.antt =====
-- `DeliverEvents`: what the delivery of events posts.
use buzzweb_server.Common.{
  String, ◌≡◌, refl, inl, inr, Bool, true, false, Option, none, some, List, [], ◌∷◌, ◌++◌, ◌==◌,
  eq_refl, arith, Each, Each-append, any_of, append-nil, if◌then◌else◌, Bool-cases,
}
use mathlib.Core.List.{append_assoc}
use buzzweb_server.Domain.Participant.{Participant}
use buzzweb_server.Domain.Room.{has_id}
use buzzweb_server.App.Messages.{ControlDispatcherEvent}
use buzzweb_server.App.Json.{Json}
use buzzweb_server.App.ProtocolCodec.Encode.{encode_event}
use buzzweb_server.Net.SessionRegistry
use buzzweb_server.Net.SessionRegistry.{SessionPtr, Registry}
use buzzweb_server.Net.Session.{Hub, hand_if, deliver_to, deliver_event, deliver_events}

-- `after` is `before` with more messages behind, each of which `Q` allows.
abbrev pub Adds : (SessionPtr × String → Type 0) → Hub → Hub → Type 0
Adds Q before after =
    (more : List (SessionPtr × String)) × (after ≡ record before { sent = before.sent ++ more })
    × Each Q more

module _ (Q : SessionPtr × String → Type 0) where
  pub Adds-none : (hub : Hub) → Adds Q hub hub
  Adds-none hub = ([], rw (append-nil hub.sent) refl, tt)

  pub Adds-one :
      (hub : Hub) (session : SessionPtr) (message : String)
      → Q (session, message)
      → Adds Q hub (record hub { sent = hub.sent ++ (session, message) ∷ [] })
  Adds-one hub session message q = ((session, message) ∷ [], refl, (q, tt))

  pub Adds-trans :
      (first second third : Hub) → Adds Q first second → Adds Q second third → Adds Q first third
  Adds-trans first second third (xs, e, qs) (ys, e', qs') =
      (xs ++ ys, rw (e', e, append_assoc first.sent xs ys) refl, Each-append Q xs ys qs qs')

  -- what `Q` must allow for one receiver of a message
  abbrev Allows : (Participant → Bool) → String → Registry → Participant → Type 0
  Allows skip encoded registry participant =
      skip participant ≡ false
      → (session : SessionPtr) → SessionRegistry.find participant.id registry ≡ some session
      → Q (session, encoded)

  hand_if-Adds :
      (o : Option SessionPtr) (message : String) (hub : Hub)
      → ((session : SessionPtr) → o ≡ some session → Q (session, message))
      → Adds Q hub (hand_if o message hub)
  hand_if-Adds none message hub q = Adds-none hub
  hand_if-Adds (some session) message hub q = Adds-one hub session message (q session refl)

  deliver_one-Adds :
      (skip : Participant → Bool) (encoded : String) (participant : Participant) (hub : Hub)
      → Allows skip encoded hub.registry participant
      → Adds Q hub (
          if skip participant
          then hub
          else hand_if (SessionRegistry.find participant.id hub.registry) encoded hub)
  deliver_one-Adds skip encoded participant hub allows = elim (Bool-cases (skip participant)) [
    | inl skipped ↦ rw skipped (Adds-none hub)
    | inr told ↦
        rw told (
          hand_if-Adds (SessionRegistry.find participant.id hub.registry) encoded hub (allows told))
  ]

  deliver_to-Adds :
      (skip : Participant → Bool) (encoded : String) (receivers : List Participant) (hub : Hub)
      → Each (Allows skip encoded hub.registry) receivers
      → Adds Q hub (deliver_to skip encoded receivers hub)
  unfolding deliver_to
  deliver_to-Adds skip encoded [] hub allows = Adds-none hub
  deliver_to-Adds skip encoded (participant ∷ receivers) hub allows =
      let next =
        if skip participant
        then hub
        else hand_if (SessionRegistry.find participant.id hub.registry) encoded hub in
      let (more, e, q) = deliver_one-Adds skip encoded participant hub allows.0 in
      Adds-trans hub next (deliver_to skip encoded receivers next) (more, e, q)
        (deliver_to-Adds skip encoded receivers next (rw e allows.1))

  module _ (json : Json) where
    -- what `Q` must allow for one event
    abbrev pub AllowsEvent : Registry → ControlDispatcherEvent → Type 0
    AllowsEvent registry (ControlDispatcherEvent.joined_room event) =
        Each
          (Allows (λ participant. participant.id == event.joined_participant.id)
            (encode_event json (ControlDispatcherEvent.joined_room event)) registry)
          event.event_receivers
    AllowsEvent registry (ControlDispatcherEvent.left_room event) =
        Each
          (Allows (λ participant. false)
            (encode_event json (ControlDispatcherEvent.left_room event)) registry)
          event.event_receivers

    deliver_event-Adds :
        (event : ControlDispatcherEvent) (hub : Hub)
        → AllowsEvent hub.registry event
        → Adds Q hub (deliver_event json event hub)
    unfolding deliver_event
    deliver_event-Adds (ControlDispatcherEvent.joined_room event) hub allows =
        deliver_to-Adds _ _ event.event_receivers hub allows
    deliver_event-Adds (ControlDispatcherEvent.left_room event) hub allows =
        deliver_to-Adds _ _ event.event_receivers hub allows

    pub deliver_events-Adds :
        (events : List ControlDispatcherEvent) (hub : Hub)
        → Each (AllowsEvent hub.registry) events
        → Adds Q hub (deliver_events json events hub)
    unfolding deliver_events
    deliver_events-Adds [] hub allows = Adds-none hub
    deliver_events-Adds (event ∷ events) hub allows =
        let next = deliver_event json event hub in
        let (more, e, q) = deliver_event-Adds event hub allows.0 in
        Adds-trans hub next (deliver_events json events next) (more, e, q)
          (deliver_events-Adds events next (rw e allows.1))

-- What holds of everyone whose id is in the list holds of each member.
pub Each-of_ids :
    {P : Participant → Type 0} (participants : List Participant)
    → ((p : Participant) → any_of (has_id p.id) participants ≡ true → P p)
    → Each P participants
Each-of_ids [] h = tt
Each-of_ids {P} (p ∷ participants) h = (
  h p (ground (arith, eq_refl p.id)),
  Each-of_ids {P = P} participants (λ q inside. h q (ground (arith, inside))),
)
