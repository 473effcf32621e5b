-- ===== src/Net/System/Reached.antt =====
-- What is among the posts reaches the client, once what is left for his session has happened.
use buzzweb_server.Common.{String, ◌≡◌, sym, ap, ◌∙◌, false, some, List, ◌∷◌, ◌++◌}
use buzzweb_server.Domain.Participant.{ParticipantId}
use buzzweb_server.App.Json.{Json}
use buzzweb_server.Net.SessionRegistry.{SessionPtr}
use buzzweb_server.Net.Session.News.{Has}
use buzzweb_server.Net.Connection.{Connection}
use buzzweb_server.Net.System.{System, run, ArePossible}
use buzzweb_server.Net.System.Posts.{messages_to, messages_to-post}
use buzzweb_server.Net.System.Sound.{IsSound}
use buzzweb_server.Net.System.Drained.{remaining, sound-delivers}

-- A message that is posted to an open session is written to its client.
pub sound-reaches :
    (json : Json) (system : System) (q : ParticipantId) (d : Connection) (session : SessionPtr)
    (message : String)
    → IsSound system
    → system.connections q ≡ some d
    → d.session.closing ≡ false
    → session.participant_id ≡ q
    → Has (session, message) system.hub.sent
    → ArePossible json (remaining q system d) system
      × ((last : System) × (d' : Connection) × (run json (remaining q system d) system ≡ some last)
          × (last.connections q ≡ some d')
          × ((front : List String) × (back : List String) × (d'.queue.written
                ≡ front ++ message ∷ back)))
sound-reaches json system q d session message h there open_still target (front, back, sent) =
    let (are, (last, d', e, hub, here, empty, written)) =
      sound-delivers json system q d h there open_still in
    (
      are,
      (
        last,
        d',
        e,
        here,
        (
          messages_to session.participant_id front,
          messages_to session.participant_id back,
          written
              ∙ ap (messages_to q) sent
              ∙ ap (λ i. messages_to i (front ++ (session, message) ∷ back)) (sym target)
              ∙ messages_to-post session message front back,
        ),
      ),
    )
