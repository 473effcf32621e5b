-- ===== src/Domain/Participant.antt =====
-- Participant.hpp and Participant.cpp. The getters are the fields.
use buzzweb_server.Common.{String}

abbrev pub ParticipantId : Type 0
ParticipantId = String

pub record Participant : Type 0 where
  pub id : ParticipantId
  pub name : String

unfoldable pub set_name : String → Participant → Participant
set_name name p = record p { name = name }
