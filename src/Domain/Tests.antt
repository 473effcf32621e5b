-- ===== src/Domain/Tests.antt =====
-- Rooms and a repository for the tests, and the theorems about them at these.
use buzzweb_server.Common.{◌≡◌, refl, none, some, [], ◌∷◌}
use buzzweb_server.Domain.Participant.{Participant}
use buzzweb_server.Domain.Room.{
  Room, JoinRoomResult, LeaveRoomResult, try_add_participant, remove_participant,
}
use buzzweb_server.Domain.Room.Membership.{leave-join}
use buzzweb_server.Domain.InMemory.{Rooms}

abbrev pub alice : Participant
alice = record { id = "p_a"; name = "Alice" }

abbrev pub bob : Participant
bob = record { id = "p_b"; name = "Bob" }

abbrev pub locked : Room
locked = record { code = "000007"; room_secret = some "pw"; participants = alice ∷ [] }

abbrev pub open_pair : Room
open_pair = record { code = "000042"; room_secret = none; participants = alice ∷ bob ∷ [] }

abbrev pub two_rooms : Rooms
two_rooms = ("000007", locked) ∷ ("000042", open_pair) ∷ []

bob_joins : (try_add_participant bob (some "pw") locked).0 ≡ JoinRoomResult.joined
unfolding try_add_participant
bob_joins = refl

leave-join_example :
    remove_participant "p_b" (try_add_participant bob (some "pw") locked).1
    ≡ (LeaveRoomResult.left, locked)
leave-join_example = leave-join bob (some "pw") locked bob_joins
