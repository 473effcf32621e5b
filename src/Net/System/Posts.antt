-- ===== src/Net/System/Posts.antt =====
-- The messages of one client among the posts.
use buzzweb_server.Common.{
  ◌∙◌, eq_refl, String, ◌≡◌, refl, ap, Bool, true, false, List, [], ◌∷◌, ◌++◌, ◌==◌, eq_iff, arith,
  Each, if◌then◌else◌, Bool-cases, inl, inr,
}
use buzzweb_server.Domain.Participant.{ParticipantId}
use buzzweb_server.Net.SessionRegistry.{SessionPtr}

abbrev pub Posts : Type 0
Posts = List (SessionPtr × String)

abbrev pub messages_to : ParticipantId → Posts → List String
messages_to p [] = []
messages_to p ((receiver, message) ∷ posts) =
    let rest = messages_to p posts in if receiver.participant_id == p then message ∷ rest else rest

pub messages_to-append :
    (p : ParticipantId) (before after : Posts)
    → messages_to p (before ++ after) ≡ messages_to p before ++ messages_to p after
messages_to-append p [] after = refl
messages_to-append p ((receiver, message) ∷ before) after =
    ground (arith, messages_to-append p before after)

-- Nothing is posted to one who is none of the receivers.
pub messages_to-none :
    (p : ParticipantId) (known : ParticipantId → Bool) (posts : Posts)
    → known p ≡ false
    → Each (λ delivery. known delivery.0.participant_id ≡ true) posts
    → messages_to p posts ≡ []
messages_to-none p known [] unknown all = refl
messages_to-none p known ((receiver, message) ∷ posts) unknown (here, all) =
    elim (Bool-cases (receiver.participant_id == p)) [
      | inl same ↦
          absurd
            (ground (arith, here, unknown, ap known ((eq_iff receiver.participant_id p).0 same)))
      | inr other ↦ rw other (messages_to-none p known posts unknown all)
    ]

-- A post to a session stands among its participant's messages where it stands among the posts.
pub messages_to-post :
    (self : SessionPtr) (reply : String) (before after : Posts)
    → messages_to self.participant_id (before ++ (self, reply) ∷ after)
      ≡ messages_to self.participant_id before ++ reply ∷ messages_to self.participant_id after
messages_to-post self reply before after =
    messages_to-append self.participant_id before ((self, reply) ∷ after)
    ∙ ap (λ l. messages_to self.participant_id before ++ l)
        (simp (eq_refl self.participant_id) refl)
