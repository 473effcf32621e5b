-- ===== src/Main/Secured.antt =====
-- How the connections of the process are secured, main.cpp.
use buzzweb_server.Common.{
  ◌≡◌, sym, ap, subst, ◌∙◌, String, true, Option, none, some, List, arith, ◌⊎◌, inl, inr,
  Bool-cases, Option-cases,
}
use buzzweb_server.Common.Attempt.{gave}
use buzzweb_server.Domain.Participant.{ParticipantId}
use buzzweb_server.Util.Config.{ServerConfig, Environment, load_config}
use buzzweb_server.Util.Config.Tls.{load_config-tls}
use buzzweb_server.App.Json.{Json}
use buzzweb_server.Net.Listener.{SessionKind}
use buzzweb_server.Net.Listener.Accepting.{kind_for}
use buzzweb_server.Net.Connection.{Connection}
use buzzweb_server.Net.Server.{Boost, Call, Server, Event}
use buzzweb_server.Main.{terminated, running, main}
use buzzweb_server.Main.Start.{plan, follow}
use buzzweb_server.Main.Follows.{CanHappen, IsAsPlanned, main-follows}

-- Nothing that a start with TLS loads fails, where the plan has no exception.
loaded_files :
    (boost : Boost) (config : ServerConfig)
    → config.tls_enabled ≡ true
    → (follow (plan boost config)).1 ≡ none
    → (boost.certificate_failure config.certificate_file ≡ none)
      × (boost.private_key_failure config.private_key_file ≡ none)
loaded_files boost config on fine = (ground (arith, on, fine), ground (arith, on, fine))

-- without TLS by the operator's word, or with TLS and the files that he named
abbrev pub IsSecured : Boost → Environment → ServerConfig → Connection → Type 0
IsSecured boost getenv config c =
    (c.kind ≡ SessionKind.plain_session
      → (getenv "BUZZWEB_TLS_ENABLED" ≡ some "0")
        ⊎ (getenv "BUZZWEB_TLS_ENABLED" ≡ some "FALSE")
        ⊎ (getenv "BUZZWEB_TLS_ENABLED" ≡ some "false"))
    × (c.kind ≡ SessionKind.ssl_session
        → (getenv "BUZZWEB_CERTIFICATE_FILE_PATH" ≡ some config.certificate_file)
          × (getenv "BUZZWEB_PRIVATE_KEY_PATH" ≡ some config.private_key_file)
          × (boost.certificate_failure config.certificate_file ≡ none)
          × (boost.private_key_failure config.private_key_file ≡ none))

kind_for-IsSecured :
    (boost : Boost) (getenv : Environment) (config : ServerConfig) (c : Connection)
    → load_config getenv ≡ gave config
    → (follow (plan boost config)).1 ≡ none
    → c.kind ≡ kind_for config.tls_enabled
    → IsSecured boost getenv config c
kind_for-IsSecured boost getenv config c loaded fine kind =
    let (files, texts) = load_config-tls getenv config loaded in
    elim (Bool-cases config.tls_enabled) [
      | inl on ↦
          let (cert, key) = loaded_files boost config on fine in
          (
            λ plain. absurd (ground (arith, plain, kind, on)),
            λ ssl. ((files on).0, (files on).1, cert, key),
          )
      | inr off ↦ (λ plain. texts off, λ ssl. absurd (ground (arith, ssl, kind, off)))
    ]

module _ (json : Json) (boost : Boost) (getenv : Environment) (events : List Event) where
  running-IsSecured :
      (config : ServerConfig) (server : Server) (calls : List Call) (p : ParticipantId)
      (c : Connection)
      → main json boost getenv events ≡ (running server, calls)
      → load_config getenv ≡ gave config
      → (follow (plan boost config)).1 ≡ none
      → server.system.connections p ≡ some c
      → IsAsPlanned config events none (main json boost getenv events).0
      → IsSecured boost getenv server.config c
  running-IsSecured config server calls p c e loaded fine here (inl (over, ended)) =
      absurd (ground (arith, e, ended))
  running-IsSecured config server calls p c e loaded fine here
        (inr (live, (server', runs, same, serving))) =
      let one : server' ≡ server = ground (arith, e, runs) in
      let there : server'.system.connections p ≡ some c =
        ap (λ (s : Server). s.system.connections p) one ∙ here in
      let kind = serving.kinds p c there ∙ ap (λ (k : ServerConfig). kind_for k.tls_enabled) same in
      subst (λ k. IsSecured boost getenv k c) (sym same ∙ ap (λ (s : Server). s.config) one)
        (kind_for-IsSecured boost getenv config c loaded fine kind)

  -- A client is served without TLS only if `BUZZWEB_TLS_ENABLED` is one of three texts; with TLS,
  -- only after the certificate and the key that the environment names were loaded. That holds of
  -- every connection of every process that runs, over all events that can happen.
  pub main-IsSecured :
      (server : Server) (calls : List Call) (p : ParticipantId) (c : Connection)
      → CanHappen json boost getenv events
      → main json boost getenv events ≡ (running server, calls)
      → server.system.connections p ≡ some c
      → IsSecured boost getenv server.config c
  main-IsSecured server calls p c possible e here =
      elim (main-follows json boost getenv events possible) [
        | inl (what, failed, ended) ↦ absurd (ground (arith, e, ended))
        | inr (config, loaded, made_calls, planned) ↦
            let after = λ (o : Option String).
              IsAsPlanned config events o (main json boost getenv events).0 in
            elim (Option-cases (follow (plan boost config)).1) [
              | inl fine ↦
                  running-IsSecured config server calls p c e loaded fine here
                    (subst after fine planned)
              | inr (what, wrong) ↦
                  let ended : (main json boost getenv events).0 ≡ terminated what =
                    subst after wrong planned in
                  absurd (ground (arith, e, ended))
            ]
      ]
