-- ===== src/Net/Connection.antt =====
-- A session with its stream: `Session<WebSocketStream>`, `PlainSession` and `SslSession` of
-- Session.hpp and Session.cpp. Net/Session has what a handler does to the rooms, the registry and
-- the flags; here is what it does to the stream besides. Of Boost's stream is kept which operation
-- of the reading side is outstanding, whether the lowest layer was closed, and how many close frames
-- were started. Beast allows one such operation at a time: `none` is a second one, or an exception
-- that leaves a handler.
pub mod Health
pub mod Reading
use buzzweb_server.Common.{
  ℕ, suc, String, Bool, true, false, Option, none, some, if◌then◌else◌, Outcome, returned, threw,
}
use buzzweb_server.Domain.RoomRepository.{RoomRepository}
use buzzweb_server.App.Json.{Json}
use buzzweb_server.Net.SessionRegistry.{SessionPtr}
use buzzweb_server.Net.WriteQueue
use buzzweb_server.Net.WriteQueue.{WriteQueue, write_error}
use buzzweb_server.Net.Session
use buzzweb_server.Net.Session.{Hub, Session, ReadResult, new_session}
use buzzweb_server.Net.Listener.{SessionKind}

pub data Outstanding : Type 0 where
  nothing handshake accept read : Outstanding

pub record Connection : Type 0 where
  pub session : Session
  pub kind : SessionKind
  pub outstanding : Outstanding
  pub socket_open : Bool
  pub close_frames : ℕ
  pub queue : WriteQueue

-- the constructors of both kinds of session
abbrev pub new_connection : SessionKind → SessionPtr → Connection
new_connection kind self = record {
  session = new_session self;
  kind = kind;
  outstanding = Outstanding.nothing;
  socket_open = true;
  close_frames = 0;
  queue = WriteQueue.fresh;
}

abbrev is_idle : Outstanding → Bool
is_idle Outstanding.nothing = true
is_idle _ = false

abbrev pub begin : Outstanding → Connection → Option Connection
begin operation c =
    if is_idle c.outstanding then some (record c { outstanding = operation }) else none

-- The options that it sets on the stream are not kept.
abbrev pub accept_web_socket : Connection → Option Connection
accept_web_socket c = begin Outstanding.accept c

abbrev pub read_next : Connection → Option Connection
read_next c = begin Outstanding.read c

abbrev start_kind : SessionKind → Connection → Option Connection
start_kind SessionKind.plain_session c = accept_web_socket c
start_kind SessionKind.ssl_session c = begin Outstanding.handshake c

unfoldable pub start : Connection → Option Connection
start c = start_kind c.kind c

abbrev pub close_lowest_layer : Connection → Connection
close_lowest_layer c = record c { socket_open = false }

-- The operation that was outstanding calls its handler.
abbrev pub completed : Connection → Connection
completed c = record c { outstanding = Outstanding.nothing }

-- `closing_` is one member, which `DoWrite` reads too.
abbrev pub took : Session → Connection → Connection
took session c = record c {
  session = session;
  queue = record c.queue { closing = session.closing };
}

abbrev pub with_world {ℓ} : {W : Type ℓ} → W → Option Connection → Option (Connection × W)
with_world world none = none
with_world world (some c) = some (c, world)

-- A handler's work on the session, and then on the stream.
abbrev pub resumed {ℓ} :
    {W : Type ℓ}
    → (Connection → Option Connection)
    → Connection
    → Session × W
    → Option (Connection × W)
resumed stream c (session, world) = with_world world (stream (took session c))

-- after `Fail`
abbrev pub broken : Connection → Option Connection
broken c = some (close_lowest_layer c)

abbrev pub after_handshake : Bool → Connection → Option Connection
after_handshake true c = broken c
after_handshake false c = accept_web_socket c

abbrev pub after_accept : Bool → Connection → Option Connection
after_accept true c = broken c
after_accept false c = read_next c

abbrev pub after_read : ReadResult → Connection → Option Connection
after_read ReadResult.closed c = some c
after_read ReadResult.failed c = broken c
after_read ReadResult.binary c = read_next c
after_read (ReadResult.text_message message) c = read_next c

-- `closing` is the flag as `Close` finds it, and `is_open` what the stream answers.
abbrev pub after_close : Bool → Bool → Connection → Option Connection
after_close true is_open c = some c
after_close false true c = some (record c { close_frames = suc c.close_frames })
after_close false false c = some (close_lowest_layer c)

abbrev pub with_queue : Connection → Option WriteQueue → Option Connection
with_queue c none = none
with_queue c (some queue) = some (record c { queue = queue })

-- the function that `Send` posts
unfoldable pub send_posted : String → Connection → Option Connection
send_posted message c = with_queue c (WriteQueue.send message c.queue)

module _ (json : Json) {S : Type 0} (repository : RoomRepository S) (draw : ℕ → ℕ) where
  unfoldable pub on_tls_handshake : Bool → Connection → S × Hub → Option (Connection × (S × Hub))
  on_tls_handshake failed c world =
      resumed (after_handshake failed) (completed c)
        (Session.on_tls_handshake json repository draw failed c.session world)

  unfoldable pub on_web_socket_accept :
      Bool → Connection → S × Hub → Option (Connection × (S × Hub))
  on_web_socket_accept failed c world =
      resumed (after_accept failed) (completed c)
        (Session.on_web_socket_accept json repository draw failed c.session world)

  abbrev pub read_done :
      ReadResult → Connection → Outcome Session × (S × Hub) → Option (Connection × (S × Hub))
  read_done result c (returned session, world) = resumed (after_read result) c (session, world)
  read_done result c (threw what, world) = none

  unfoldable pub on_read : ReadResult → Connection → S × Hub → Option (Connection × (S × Hub))
  on_read result c world =
      read_done result (completed c) (Session.on_read json repository draw result c.session world)

  -- the completion of a write
  unfoldable pub on_write : Bool → Connection → S × Hub → Option (Connection × (S × Hub))
  on_write true c world =
      resumed broken (record c { queue = write_error c.queue })
        (Session.fail json repository draw c.session world)
  on_write false c world = with_world world (with_queue c (WriteQueue.write_done c.queue))

  -- the function that `Close` posts
  unfoldable pub close : Bool → Connection → S × Hub → Option (Connection × (S × Hub))
  close is_open c world =
      resumed (after_close c.session.closing is_open) c
        (Session.close json repository draw c.session world)
