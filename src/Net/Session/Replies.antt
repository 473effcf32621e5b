-- ===== src/Net/Session/Replies.antt =====
-- `HandleMessage`: what is sent for one message of a client, and to whom.
use buzzweb_server.Common.{ℕ, String, ◌≡◌, inl, inr, refl, eq_refl, arith, returned}
use buzzweb_server.Domain.Room.{RoomCode}
use buzzweb_server.Domain.RoomRepository.{RoomRepository, Contract}
use buzzweb_server.App.RoomService.Create.{create_spec}
use buzzweb_server.App.Messages.{ControlMessageType, CommandType, ErrorResponsePayload, RequestMeta}
use buzzweb_server.App.ControlDispatcher.Spec.{Stored, answer}
use buzzweb_server.App.ControlDispatcher.Refinement.{dispatch-refines}
use buzzweb_server.App.Json.{Json}
use buzzweb_server.App.ProtocolCodec.Decode.{decode_request}
use buzzweb_server.App.ProtocolCodec.Requests.{IsFrom, Attempt-cases, decode_request-IsFrom}
use buzzweb_server.Net.SessionRegistry.{SessionPtr, IsKeyed}
use buzzweb_server.Net.Session.{Hub, session_handler, decode_failed, handle_message}
use buzzweb_server.Net.Session.Delivery.{Adds, Adds-one}
use buzzweb_server.Net.Session.Receivers.{
  IsInvolved, refused-Adds, created-Adds, joined-Adds, left-Adds, signaling-Adds,
}

module _ (json : Json) (self : SessionPtr) (before after : Stored) (hub : Hub)
    (keyed : IsKeyed hub.registry) where
  answer-Adds :
      (meta : RequestMeta) (draw : ℕ → ℕ) (type : ControlMessageType)
      (command : CommandType json.Value)
      → IsFrom self.participant_id meta command
      → ((j : RoomCode) → after j ≡ (answer meta draw type command before).1 j)
      → Adds
          (λ delivery. IsInvolved json self before after delivery.0)
          hub
          (session_handler json self (answer meta draw type command before).0 hub).1
  unfolding answer
  answer-Adds meta draw ControlMessageType.create_room (CommandType.create_room command) from
        stored =
      created-Adds json self before after hub keyed meta draw command
        (create_spec 100 0 draw command.password_hash before)
  answer-Adds meta draw ControlMessageType.join_room (CommandType.join_room command) from stored =
      joined-Adds json self before after hub keyed meta command.participant command.room_code
        command.password_hash (before command.room_code) _ from.1 refl
        (ground (arith, stored command.room_code, eq_refl command.room_code))
  answer-Adds meta draw ControlMessageType.leave_room (CommandType.leave_room command) from stored =
      rw from.1 (
        left-Adds json self before after hub keyed meta command.room_code _ refl
          (ground (arith, stored command.room_code, eq_refl command.room_code, from.1)))
  answer-Adds meta draw ControlMessageType.signaling (CommandType.signaling command) from stored =
      rw (← stored command.room_code)
        (signaling-Adds json self before after hub keyed meta command _ _ from.1 refl refl)
  answer-Adds meta draw _ _ from stored =
      refused-Adds json self before after hub keyed meta ErrorResponsePayload.internal_error

module _ (json : Json) {S : Type 0} {repository : RoomRepository S} {view : S → Stored}
    (contract : Contract repository view) (draw : ℕ → ℕ) (self : SessionPtr) (s : S)
    (hub : Hub) where
  -- Whatever a client sends, the handling of it does not throw, leaves the registry as it is, and
  -- sends nothing to a session that is not the client's own, unless its participant is, afterwards,
  -- in a room in which the client's participant is too or was before.
  pub handle_message-private :
      (message : String)
      → IsKeyed hub.registry
      → ((handle_message json repository draw self message (s, hub)).0 ≡ returned tt)
        × Adds
            (λ delivery.
              IsInvolved json self
                (view s)
                (view (handle_message json repository draw self message (s, hub)).1.0)
                delivery.0)
            hub
            (handle_message json repository draw self message (s, hub)).1.1
  unfolding handle_message session_handler
  handle_message-private message keyed =
      elim (Attempt-cases (decode_request json self.participant_id message)) [
        | inl (request, decoded) ↦ rw decoded (
            let r =
              dispatch-refines contract draw request (session_handler json self) (λ result h. refl)
                hub s in
            (
              r.returns,
              rw r.called (
                  answer-Adds json self (view s) _ hub keyed request.meta draw request.meta.type
                    request.command
                    (decode_request-IsFrom json self.participant_id message request decoded)
                    r.stores),
            ))
        | inr (e, failed) ↦ rw failed (
          refl,
          Adds-one (λ delivery. IsInvolved json self (view s) (view s) delivery.0) hub self
              (decode_failed json e) (inl refl),
        )
      ]
