-- ===== src/App/RoomService/Make.antt =====
-- The constructor of RoomService.cpp. A service is the repository that it holds; `none` is a null
-- pointer.
use buzzweb_server.Common.{Option, none, some, Outcome, returned, threw}
use buzzweb_server.Domain.RoomRepository.{RoomRepository}

unfoldable pub new_room_service :
    {S : Type 0} → Option (RoomRepository S) → Outcome (RoomRepository S)
new_room_service none = threw "repository_required"
new_room_service (some repository) = returned repository
