-- ===== src/Net/Session/Tests.antt =====
-- Carol's message over the rooms of the tests; ids; the answer to a text that is not JSON.
use buzzweb_server.Common.{
  ℕ, String, ◌≡◌, ◌∷◌, List, [], arith, length, some, none, false, returned,
}
use buzzweb_server.Domain.Room.{RoomCode}
use buzzweb_server.Domain.InMemory.{in_memory}
use buzzweb_server.Domain.InMemory.Refinement.{view, in_memory-Contract}
use buzzweb_server.Domain.Tests.{two_rooms}
use buzzweb_server.App.Json.Sample.{sample, sample-JsonLaws}
use buzzweb_server.App.ProtocolCodec.Decode.{DecodeException}
use buzzweb_server.App.ProtocolCodec.Encode.{error_message}
use buzzweb_server.App.ProtocolCodec.Tests.{join_message}
use buzzweb_server.Net.SessionRegistry.{SessionPtr}
use buzzweb_server.Net.Session.{Hub, generate_participant_id, decode_failed}
use buzzweb_server.Net.Session.Ids.{generate_participant_id_faithful}
use buzzweb_server.Common.Streams.{read_digits, value_from}
use buzzweb_server.Net.Session.Spec.{Reading, all_spec}
use buzzweb_server.Net.Session.Exact.{posted, handle_all, handle_all-refines}
use buzzweb_server.Net.Session.Refusals.{refused_text}
open sample use {Value, parse, at, string, boolean}

abbrev carol : SessionPtr
carol = record { number = 3; participant_id = "p_c" }

abbrev alice_session : SessionPtr
alice_session = record { number = 1; participant_id = "p_a" }

abbrev connected : Hub
connected = record { registry = ("p_a", alice_session) ∷ ("p_c", carol) ∷ []; sent = [] }

abbrev readings : List Reading
readings = (carol, (join_message, λ attempt. 8)) ∷ []

handle_all-refines_example :
    let o = handle_all sample in_memory readings (two_rooms, connected) in
    let (posts, stored) = all_spec sample connected.registry readings (view two_rooms) in
    (o.0 ≡ returned tt)
    × (o.1.1 ≡ posted posts connected)
    × ((code : RoomCode) → view o.1.0 code ≡ stored code)
handle_all-refines_example =
    handle_all-refines sample in_memory-Contract readings two_rooms connected

generate_participant_id_faithful_example :
    ((s : String) × (generate_participant_id 7 ≡ String.◌∷◌ "p" (String.◌∷◌ "_" s))
      × ((ds : List ℕ) × (read_digits 16 s ≡ some ds)
          × (length ds ≡ 16)
          × (value_from 16 0 ds ≡ 7)))
    × (generate_participant_id 7 ≡ generate_participant_id 255 → ◌≡◌ {A = ℕ} 7 255)
generate_participant_id_faithful_example =
    generate_participant_id_faithful 7 255 (omega arith) (omega arith)

refused_text_example :
    (v error : Value) × (parse (decode_failed sample DecodeException.parse_error) ≡ some v)
    × (at v "type" ≡ some (string "error"))
    × (at v "ok" ≡ some (boolean false))
    × (at v "request_id" ≡ none)
    × (at v "error" ≡ some error)
    × (at error "code" ≡ some (string "invalid_json"))
    × (at error "message" ≡ some (string (error_message "invalid_json")))
refused_text_example = refused_text sample sample-JsonLaws DecodeException.parse_error
