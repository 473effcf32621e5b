-- ===== src/Net/EventLoop/Reachable.antt =====
-- What holds of the server's state after any events from its start.
use buzzweb_server.Common.{
  ℕ, ◌≡◌, inl, inr, refl, true, false, some, List, [], ◌∷◌, arith, Bool, Bool-cases, Option-cases,
}
use buzzweb_server.Common.UnorderedMap
use buzzweb_server.Domain.Participant.{ParticipantId}
use buzzweb_server.Domain.Room.{RoomCode}
use buzzweb_server.Domain.RoomRepository.{holds}
use buzzweb_server.Domain.InMemory.{in_memory, no_rooms}
use buzzweb_server.Domain.InMemory.Refinement.{view}
use buzzweb_server.App.Json.{Json}
use buzzweb_server.Net.SessionRegistry
use buzzweb_server.Net.SessionRegistry.{SessionPtr, Registry, IsKeyed, add-IsKeyed, find-add}
use buzzweb_server.Net.Session.{
  Session, ReadResult, new_session, on_read, fail, close, on_web_socket_accept, on_tls_handshake,
}
use buzzweb_server.Net.EventLoop.{
  no_draw, Running, started, Event, connects, handshakes, accepts, reads, fails, closes, deliver,
  step, run, updated, IsOrderly, AreOrderly,
}
use buzzweb_server.Net.EventLoop.Presence.{
  counts, IsPresentIn, connected-IsPresent, accepted-IsPresent, kept-IsPresent, removed-IsPresent,
  served-IsPresent,
}

module _ (json : Json) where
  read-IsPresent :
      (result : ReadResult) (draw : ℕ → ℕ) (running : Running) (p : ParticipantId)
      (session : Session)
      → IsPresentIn running
      → running.sessions p ≡ some session
      → IsOrderly (reads p result draw) running
      → IsPresentIn (deliver json (reads p result draw) running (some session))
  unfolding on_read fail
  read-IsPresent ReadResult.closed draw running p session h here orderly =
      removed-IsPresent json draw running.sessions running.rooms running.hub p session session h
        here refl refl
  read-IsPresent ReadResult.failed draw running p session h here orderly =
      removed-IsPresent json draw running.sessions running.rooms running.hub p session
        (record session { closing = true }) h here refl refl
  read-IsPresent ReadResult.binary draw running p session h here orderly =
      kept-IsPresent running.sessions running.hub.registry (view running.rooms) p session session h
        here refl refl
  read-IsPresent (ReadResult.text_message message) draw running p session h here orderly =
      served-IsPresent json draw running.sessions running.rooms running.hub p session message h here
        (orderly session here)

  ended-IsPresent :
      (running : Running) (p : ParticipantId) (session : Session)
      → IsPresentIn running
      → running.sessions p ≡ some session
      → IsPresentIn (
          updated running.sessions
            (fail json in_memory no_draw session (running.rooms, running.hub)))
  unfolding fail
  ended-IsPresent running p session h here =
      removed-IsPresent json no_draw running.sessions running.rooms running.hub p session
        (record session { closing = true }) h here refl refl

  handshake-IsPresent :
      (failed : Bool) (running : Running) (p : ParticipantId) (session : Session)
      → IsPresentIn running
      → running.sessions p ≡ some session
      → IsPresentIn (deliver json (handshakes p failed) running (some session))
  unfolding on_tls_handshake
  handshake-IsPresent true running p session h here = ended-IsPresent running p session h here
  handshake-IsPresent false running p session h here =
      kept-IsPresent running.sessions running.hub.registry (view running.rooms) p session session h
        here refl refl

  accept-IsPresent :
      (failed : Bool) (running : Running) (p : ParticipantId) (session : Session)
      → IsPresentIn running
      → running.sessions p ≡ some session
      → IsPresentIn (deliver json (accepts p failed) running (some session))
  unfolding on_web_socket_accept
  accept-IsPresent true running p session h here = ended-IsPresent running p session h here
  accept-IsPresent false running p session h here =
      accepted-IsPresent running.sessions running.hub.registry (view running.rooms)
        (record session { registered = true }) h refl

  close-IsPresent :
      (running : Running) (p : ParticipantId) (session : Session)
      → IsPresentIn running
      → running.sessions p ≡ some session
      → IsPresentIn (deliver json (closes p) running (some session))
  unfolding close
  close-IsPresent running p session h here = elim (Bool-cases session.closing) [
    | inl again ↦ simp (again) (
        kept-IsPresent running.sessions running.hub.registry (view running.rooms) p session session
          h here refl refl)
    | inr first ↦ simp (first) (
        removed-IsPresent json no_draw running.sessions running.rooms running.hub p session
          (record session { closing = true }) h here refl refl)
  ]

  -- What one handler keeps, the event loop keeps: nothing happens to a session that is not there.
  found-IsPresent :
      (event : Event) (running : Running) (p : ParticipantId)
      → IsPresentIn running
      → ((session : Session)
          → running.sessions p ≡ some session
          → IsPresentIn (deliver json event running (some session)))
      → IsPresentIn (deliver json event running (running.sessions p))
  found-IsPresent event running p h kept = elim (Option-cases (running.sessions p)) [
    | inl nobody ↦ rw nobody h
    | inr (session, here) ↦ rw here (kept session here)
  ]

  step-IsPresent :
      (event : Event) (running : Running)
      → IsPresentIn running
      → IsOrderly event running
      → IsPresentIn (step json event running)
  unfolding step
  step-IsPresent (connects self) running h orderly =
      connected-IsPresent running.sessions running.hub.registry (view running.rooms)
        (new_session self) h orderly refl
  step-IsPresent (handshakes p failed) running h orderly =
      found-IsPresent (handshakes p failed) running p h
        (λ session. handshake-IsPresent failed running p session h)
  step-IsPresent (accepts p failed) running h orderly =
      found-IsPresent (accepts p failed) running p h
        (λ session. accept-IsPresent failed running p session h)
  step-IsPresent (reads p result draw) running h orderly =
      found-IsPresent (reads p result draw) running p h
        (λ session here. read-IsPresent result draw running p session h here orderly)
  step-IsPresent (fails p) running h orderly =
      found-IsPresent (fails p) running p h (λ session. ended-IsPresent running p session h)
  step-IsPresent (closes p) running h orderly =
      found-IsPresent (closes p) running p h (λ session. close-IsPresent running p session h)

  pub run-IsPresent :
      (events : List Event) (running : Running)
      → IsPresentIn running
      → AreOrderly json events running
      → IsPresentIn (run json events running)
  unfolding run AreOrderly
  run-IsPresent [] running h orderly = h
  run-IsPresent (event ∷ events) running h orderly =
      run-IsPresent events (step json event running) (step-IsPresent event running h orderly.0)
        orderly.1

  pub started-IsPresent : IsPresentIn started
  unfolding no_rooms SessionRegistry.find UnorderedMap.find
  started-IsPresent = record {
    keyed = λ p session e. absurd (ground (arith, e));
    named = λ p session e. absurd (ground (arith, e));
    listed = λ p session e on. absurd (ground (arith, e));
    enrolled = λ p e. absurd (ground (arith, e));
    present = λ p code e. absurd (ground (arith, e));
  }

  pub started-IsPresentIn :
      (events : List Event) → AreOrderly json events started → IsPresentIn (run json events started)
  started-IsPresentIn events orderly = run-IsPresent events started started-IsPresent orderly

  -- From the start of the server on, after any connections, handshakes, WebSocket accepts, reads,
  -- failed writes and closes of any sessions in any order, everyone who is in a room has a session of
  -- his own in the registry, so that what is relayed or announced to him finds it, and his session
  -- counts as registered. That holds as long as a new session has a new id and no text is read on a
  -- session that is not registered.
  pub reachable :
      (events : List Event) (p : ParticipantId) (code : RoomCode)
      → AreOrderly json events started
      → holds p (view (run json events started).rooms code) ≡ true
      → (session : SessionPtr) × (SessionRegistry.find p (run json events started).hub.registry
          ≡ some session)
        × (session.participant_id ≡ p)
        × (counts ((run json events started).sessions p) ≡ true)
  reachable events p code orderly inside =
      let h = started-IsPresentIn events orderly in
      elim (Option-cases (SessionRegistry.find p (run json events started).hub.registry)) [
        | inl nobody ↦ absurd (ground (arith, nobody, h.present p code inside))
        | inr (session, found) ↦
            (session, found, h.keyed p session found, h.enrolled p (h.present p code inside))
      ]
