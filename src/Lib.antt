-- ===== src/Lib.antt =====
-- A verification library for the BuzzWeb signaling server, a WebSocket server that lets clients make
-- and join rooms and relays their signaling messages to other members of a room.
--
-- How a message goes: a session (src/net/Session.cpp, include/buzzweb/net/Session.hpp) reads a text,
-- decodes it (src/app/ProtocolCodec.cpp) and gives the request to the dispatcher
-- (src/app/ControlDispatcher.cpp), which calls the use cases (src/app/RoomService.cpp) over a
-- repository of rooms (include/buzzweb/domain/RoomRepository.hpp). The dispatcher calls the session
-- back with a response and events; the session encodes them and posts them to the sessions that the
-- registry (src/net/SessionRegistry.cpp) finds.
--
-- Which file models which part:
--   Domain/Participant, Domain/Room     src/domain/Participant.cpp, src/domain/Room.cpp
--   Domain/RoomRepository               include/buzzweb/domain/RoomRepository.hpp: the interface as
--                                       a record `RoomRepository`, its promises as `Contract`
--   Domain/InMemory                     src/domain/InMemoryRoomRepository.cpp
--   App/Result, App/RoomServiceTypes    include/buzzweb/app/Result.hpp and RoomService.hpp
--   App/RoomService                     src/app/RoomService.cpp; the specification in .../Spec
--   App/Messages, App/ControlDispatcher include/buzzweb/app/ControlDispatcher.hpp and
--                                       src/app/ControlDispatcher.cpp; the specification in .../Spec
--   App/Json                            the JSON library, a parameter
--   App/ProtocolCodec                   src/app/ProtocolCodec.cpp: .../Decode and .../Encode
--   Net/SessionRegistry                 src/net/SessionRegistry.cpp
--   Net/WriteQueue                      `Send`, `DoWrite` and the completion of a write, Session.hpp
--   Net/Session                         what the handlers of Session.hpp and Session.cpp do to the
--                                       session, the registry and the rooms; the
--                                       specification of the posts in .../Spec
--   Net/Connection                      what they do to the stream besides
--   Net/EventLoop                       all sessions together, without streams and queues
--   Net/System                          all sessions with their streams and queues, and the posts, as
--                                       `Server::Run` (src/net/Server.cpp) runs them on one thread
--   Net/Listener                        src/net/Listener.cpp
--   Net/Server                          src/net/Server.cpp: the constructor, `Run` with the listener
--                                       and all sessions, and `Stop`
--   Main                                src/main.cpp
--   Util/Config                         src/util/Config.cpp and src/util/Env.cpp
--   Common                              what the parts share of the C++ standard library
-- A method in CamelCase is the function of the same name in snake_case, as TryAddParticipant is
-- try_add_participant. An enumerator or an alternative of a variant is a constructor.
--
-- How the code is read:
--   A class is a record of its fields, and a method takes and gives the state. A C++ exception is the
--   outcome `threw`; what was written before a throw stays written (Common/Exceptions). The variables
--   that a lambda captures by reference are a state of the lambda (`JoinCapture`, `LeaveCapture`).
--   A method that holds a mutex from its first to its last line is one step, so calls from several
--   threads are some sequence of such steps. The handlers of one session run one after another.
--   An `unordered_map` is an association list, and the theorems hold of every list, so of every
--   order in which the container may iterate.
--   `Storage` (App/ControlDispatcher/Commuting) is a repository's state without that order, a quotient.
--   The random generators are parameters: `draw` gives the number that each attempt yields.
--   The environment is a parameter, a function from names to texts; `std::stoi` is written out.
--   The JSON library is a parameter with the laws of App/Json, which state what its documentation says
--   of these calls; App/Json/Sample is a library that keeps all of them. The `data` of a signaling
--   message, a JSON value, is the field `payload`.
--   A message that is sent is listed with its receiver, in the order of the posts (`Hub.sent`). The
--   event loop runs the posted functions in that order, between the other handlers (Net/System), and
--   the message is then in the receiver's queue (Net/WriteQueue).
--   Boost is what completes operations and answers calls: an event says which operation completes and
--   whether with an error, and the order of the events is free. Of a stream is kept which operation of
--   its reading side is outstanding, whether its lowest layer was closed, and how many close frames
--   were started. `none` is a second operation at the same time, which Beast forbids.
--
-- Bounds and fuel: CreateRoom makes 100 attempts, and the recursion is on the attempts that are left.
-- The digits of a number are taken on fuel of the number and one more, which is enough, since
-- reading the digits back gives the number.
--
-- The events of the server are a list of any length; an event is a step, so there is no fuel.
--
-- Not modelled: the logging; the failure of an allocation; the options that are set on a stream, its
-- timeouts, and the texts of its errors, which are only logged; the end of the objects when the
-- process ends; the demonstration client, scripts and images.
pub mod Common
pub mod Domain
pub mod App
pub mod Net
pub mod Util
pub mod Main
