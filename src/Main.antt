-- ===== src/Main.antt =====
-- main.cpp: the configuration, the parts of the server, and its run. What happens while it runs is a
-- list of events, of which the last may stop it.
pub mod Start
pub mod Follows
pub mod Secured
pub mod Tests
use buzzweb_server.Common.{
  ℕ, String, Bool, true, false, Option, none, some, List, [], ◌∷◌, if◌then◌else◌, Outcome, returned,
  threw,
}
use buzzweb_server.Common.Attempt.{Attempt, gave, raised}
use buzzweb_server.Util.Config.{ServerConfig, Environment, load_config}
use buzzweb_server.Domain.InMemory.{in_memory, Rooms}
use buzzweb_server.Domain.RoomRepository.{RoomRepository}
use buzzweb_server.App.RoomService.Make.{new_room_service}
use buzzweb_server.App.Json.{Json}
use buzzweb_server.Net.Server
use buzzweb_server.Net.Server.{Boost, Call, Server, Event, new_server, run_start}

-- How the process is after the events: it has returned a code, an exception has left `main`, it still
-- runs, or two operations of a stream have overlapped.
pub data Process : Type 0 where
  exited : ℕ → Process
  terminated : String → Process
  running : Server → Process
  broken : Process

abbrev pub ran : Option Server → Process
ran none = broken
ran (some server) = if server.stopped then exited 0 else running server

abbrev pub serve : Json → List Event → Outcome Server × List Call → Process × List Call
serve json events (threw what, calls) = (terminated what, calls)
serve json events (returned server, calls) =
    (ran (Server.run json events (run_start server)), calls)

abbrev pub with_service :
    Json → Boost → ServerConfig → List Event → Outcome (RoomRepository Rooms) → Process × List Call
with_service json boost config events (threw what) = (terminated what, [])
with_service json boost config events (returned service) =
    serve json events (new_server boost config [])

abbrev pub with_config :
    Json → Boost → List Event → Attempt String ServerConfig → Process × List Call
with_config json boost events (raised what) = (exited 1, [])
with_config json boost events (gave config) =
    with_service json boost config events (new_room_service (some in_memory))

-- The process, and the calls of the outside that its start has made.
unfoldable pub main : Json → Boost → Environment → List Event → Process × List Call
unfolding new_room_service
main json boost getenv events = with_config json boost events (load_config getenv)
