-- ===== src/Net/System/Replied.antt =====
-- What becomes of a text that is read on an open session: its answer reaches the client.
use buzzweb_server.Common.{
  ℕ, String, ◌≡◌, ◌⊎◌, inl, inr, refl, sym, ap, subst, ◌∙◌, false, some, List, [], ◌∷◌, ◌++◌,
  eq_refl, arith,
}
use buzzweb_server.Common.Attempt.{gave, raised}
use mathlib.Core.List.{append_assoc}
use buzzweb_server.Domain.Participant.{ParticipantId}
use buzzweb_server.Domain.InMemory.{Rooms, in_memory}
use buzzweb_server.App.Messages.{ControlDispatcherRequest, ControlDispatcherResponse, meta_of}
use buzzweb_server.App.Json.{Json}
use buzzweb_server.App.ProtocolCodec.Decode.{DecodeException, decode_request}
use buzzweb_server.App.ProtocolCodec.Encode.{encode_response}
use buzzweb_server.Net.SessionRegistry.{SessionPtr}
use buzzweb_server.Net.Session
use buzzweb_server.Net.Session.{Hub, ReadResult, decode_failed, handle_message}
use buzzweb_server.Net.Session.Answered.{handle_message-answered}
use buzzweb_server.Net.Connection
use buzzweb_server.Net.Connection.{Connection, Outstanding}
use buzzweb_server.Net.System.{System, begun, Event, reads, put, step, run, IsPossible, ArePossible}
use buzzweb_server.Net.System.Posts.{messages_to, messages_to-post}
use buzzweb_server.Net.System.Delivered.{step-IsSound, run-IsSound, begun-IsSound}
use buzzweb_server.Net.System.Drained.{remaining, sound-delivers}

-- The session after a text, which is read on.
abbrev pub read_on : Connection → Connection
read_on c = record c {
  outstanding = Outstanding.read;
  queue = record c.queue { closing = c.session.closing };
}

module _ (json : Json) where
  -- The reply is the protocol error for the text, or a response to the request that it holds, with
  -- the request's own type and id.
  abbrev pub IsAnswer : ParticipantId → String → String → Type 0
  IsAnswer p message reply =
      ((e : DecodeException) × (decode_request json p message ≡ raised e)
        × (reply ≡ decode_failed json e))
      ⊎ ((request : ControlDispatcherRequest json.Value) × (response : ControlDispatcherResponse
            json.Value)
          × (decode_request json p message ≡ gave request)
          × (reply ≡ encode_response json response)
          × (meta_of response ≡ request.meta))

  abbrev pub handled_by : (ℕ → ℕ) → SessionPtr → String → System → Rooms × Hub
  handled_by draw self message system =
      (handle_message json in_memory draw self message (system.rooms, system.hub)).1

  pub text_read :
      (p : ParticipantId) (message : String) (draw : ℕ → ℕ) (system : System) (c : Connection)
      → system.connections p ≡ some c
      → step json (reads p (ReadResult.text_message message) draw) system
        ≡ some (record system {
          rooms = (handled_by draw c.session.self message system).0;
          hub = (handled_by draw c.session.self message system).1;
          connections = put (read_on c) system.connections;
        })
  unfolding step Connection.on_read Session.on_read
  text_read p message draw system c here =
      let answered =
        handle_message-answered json in_memory draw c.session.self message system.rooms
          system.hub in
      rw (here, answered.0) refl

  -- Behind what was posted before, there is the answer among the messages for the sender.
  posted-IsAnswer :
      (message : String) (draw : ℕ → ℕ) (system : System) (self : SessionPtr)
      → (front : List String) × (reply : String) × (back : List String) × IsAnswer
          self.participant_id message reply
        × (messages_to self.participant_id (handled_by draw self message system).1.sent
            ≡ front ++ reply ∷ back)
  posted-IsAnswer message draw system self =
      let p = self.participant_id in
      elim (handle_message-answered json in_memory draw self message system.rooms system.hub).1 [
        | inl (e, failed, same) ↦ (
          messages_to p system.hub.sent,
          decode_failed json e,
          [],
          inl (e, failed, refl),
          ap (λ (w : Rooms × Hub). messages_to p w.1.sent) same
              ∙ messages_to-post self (decode_failed json e) system.hub.sent [],
        )
        | inr (request, decoded, (relays, response, more, sent, meta)) ↦ (
          messages_to p (system.hub.sent ++ relays),
          encode_response json response,
          messages_to p more,
          inr (request, response, decoded, refl, meta),
          ap (messages_to p) (
                sent
                ∙ append_assoc (system.hub.sent ++ relays)
                    ((self, encode_response json response) ∷ []) more)
              ∙ messages_to-post self (encode_response json response) (system.hub.sent ++ relays)
                  more,
        )
      ]

  -- In every state that the server reaches, when the read of a session that is not closing completes
  -- with a text, the client gets an answer to it, the protocol error of a refused text or a response
  -- with the request's type and id: once the events that are left for the session have happened,
  -- which are all possible, the answer is among the messages that were written to the client. It is
  -- assumed that operations complete only while they are outstanding and that new sessions have new
  -- ids.
  pub read-answered :
      (events : List Event) (system : System) (p : ParticipantId) (c : Connection)
      (message : String) (draw : ℕ → ℕ)
      → ArePossible json events begun
      → run json events begun ≡ some system
      → system.connections p ≡ some c
      → c.session.closing ≡ false
      → c.outstanding ≡ Outstanding.read
      → (next : System) × (step json (reads p (ReadResult.text_message message) draw) system
          ≡ some next)
        × (next.connections p ≡ some (read_on c))
        × ArePossible json (remaining p next (read_on c)) next
        × ((last : System) × (c' : Connection) × (run json (remaining p next (read_on c)) next
              ≡ some last)
            × (last.connections p ≡ some c')
            × ((front : List String) × (reply : String) × (back : List String) × IsAnswer p message
                  reply
                × (c'.queue.written ≡ front ++ reply ∷ back)))
  read-answered events system p c message draw possible ran here open_still reading =
      let h = run-IsSound json events begun system (begun-IsSound json) possible ran in
      let moved = text_read p message draw system c here in
      let can : IsPossible (reads p (ReadResult.text_message message) draw) system =
        λ other there. ground (arith, here, there, reading) in
      let h1 = step-IsSound json _ system _ h can moved in
      let own = h.named p c here in
      let there : put (read_on c) system.connections p ≡ some (read_on c) =
        ground (arith, own, eq_refl p) in
      let (are, (last, c', e, hub, here', empty, written)) =
        sound-delivers json _ p (read_on c) h1 there open_still in
      let (front, reply, back, answer, posted) =
        posted-IsAnswer message draw system c.session.self in
      (
        _,
        moved,
        there,
        are,
        (
          last,
          c',
          e,
          here',
          (
            front,
            reply,
            back,
            subst (λ q. IsAnswer q message reply) own answer,
            written
                ∙ ap (λ q. messages_to q (handled_by draw c.session.self message system).1.sent)
                    (sym own)
                ∙ posted,
          ),
        ),
      )
