-- ===== src/Util/Tests.antt =====
-- Environments for the tests, and what the server makes of them.
use buzzweb_server.Common.{
  ◌≡◌, ◌%◌, ◌^◌, refl, ◌⊎◌, true, false, none, some, ◌==◌, arith, if◌then◌else◌,
}
use buzzweb_server.Common.Attempt.{gave}
use buzzweb_server.Common.Streams.{text, digits, digit_char}
use buzzweb_server.Util.Config.{
  ServerConfig, Environment, get_env, get_env_optional, stoi, tls_required, load_config,
}
use buzzweb_server.Util.Config.Port.{load_config-port}
use buzzweb_server.Util.Config.Tls.{load_config-tls}

-- 70000 is no port.
abbrev far : Environment
far env =
    if env == "BUZZWEB_SERVER_PORT"
    then some "70000"
    else if env == "BUZZWEB_TLS_ENABLED"
    then none
    else some "/etc/buzzweb.pem"

abbrev far_config : ServerConfig
far_config = record {
  port = 4464;
  certificate_file = "/etc/buzzweb.pem";
  private_key_file = "/etc/buzzweb.pem";
  tls_enabled = true;
}

far_loaded : load_config far ≡ gave far_config
unfolding load_config get_env get_env_optional stoi tls_required
far_loaded = refl

far_set : far "BUZZWEB_SERVER_PORT" ≡ some (text (digits 10 70000))
unfolding text digits digit_char
far_set = refl

load_config-port_example : far_config.port ≡ 70000 % 2 ^ 16
load_config-port_example = load_config-port far 70000 far_config (omega arith) far_set far_loaded

load_config-tls_example :
    (true ≡ true
      → (far "BUZZWEB_CERTIFICATE_FILE_PATH" ≡ some "/etc/buzzweb.pem")
        × (far "BUZZWEB_PRIVATE_KEY_PATH" ≡ some "/etc/buzzweb.pem"))
    × (true ≡ false
        → (far "BUZZWEB_TLS_ENABLED" ≡ some "0")
          ⊎ (far "BUZZWEB_TLS_ENABLED" ≡ some "FALSE")
          ⊎ (far "BUZZWEB_TLS_ENABLED" ≡ some "false"))
load_config-tls_example = load_config-tls far far_config far_loaded
