-- ===== src/Util/Config/Tls.antt =====
-- Whether the server runs over TLS, and with which files.
use buzzweb_server.Common.{
  ℕ, ◌≡◌, sym, ap, ◌∙◌, ◌⊎◌, inl, inr, String, Bool, true, false, Option, none, some, eq_iff, arith,
  Option-cases,
}
use buzzweb_server.Common.Attempt.{Attempt, gave, raised, ◌>>=◌}
use buzzweb_server.Util.Config.{
  ServerConfig, Environment, tls_required, tls_files, port_of, get_env, load_config,
}

built :
    (tls : Bool) (port : Attempt String ℕ) (files : Attempt String (String × String))
    (config : ServerConfig)
    → (port >>= (λ p. files >>= (λ f.
        gave (record {
          port = p;
          certificate_file = f.0;
          private_key_file = f.1;
          tls_enabled = tls;
        }))))
      ≡ gave config
    → (config.tls_enabled ≡ tls) × (files ≡ gave (config.certificate_file, config.private_key_file))
built tls (raised x) files config e = absurd (ground (arith, e))
built tls (gave p) (raised x) config e = absurd (ground (arith, e))
built tls (gave p) (gave f) config e = (ground (arith, e), ground (arith, e))

tls_required-false :
    (o : Option String)
    → tls_required o ≡ false
    → (o ≡ some "0") ⊎ (o ≡ some "FALSE") ⊎ (o ≡ some "false")
unfolding tls_required
tls_required-false none e = absurd (ground (arith, e))
tls_required-false (some s) e = ground (arith, e, eq_iff s "0", eq_iff s "FALSE", eq_iff s "false")

tls_files-gave :
    (getenv : Environment) (cert key : String)
    → tls_files getenv true ≡ gave (cert, key)
    → (getenv "BUZZWEB_CERTIFICATE_FILE_PATH" ≡ some cert)
      × (getenv "BUZZWEB_PRIVATE_KEY_PATH" ≡ some key)
unfolding get_env
tls_files-gave getenv cert key e = elim (Option-cases (getenv "BUZZWEB_CERTIFICATE_FILE_PATH")) [
  | inl no_cert ↦ absurd (ground (arith, e, no_cert))
  | inr (c, a_cert) ↦ elim (Option-cases (getenv "BUZZWEB_PRIVATE_KEY_PATH")) [
    | inl no_key ↦ absurd (ground (arith, e, a_cert, no_key))
    | inr (k, a_key) ↦ (ground (arith, e, a_cert, a_key), ground (arith, e, a_cert, a_key))
  ]
]

-- TLS is off only on one of three texts in `BUZZWEB_TLS_ENABLED`, and then no files are needed. With
-- TLS, a configuration is given only if both files are named, and they are the named ones.
pub load_config-tls :
    (getenv : Environment) (config : ServerConfig)
    → load_config getenv ≡ gave config
    → (config.tls_enabled ≡ true
        → (getenv "BUZZWEB_CERTIFICATE_FILE_PATH" ≡ some config.certificate_file)
          × (getenv "BUZZWEB_PRIVATE_KEY_PATH" ≡ some config.private_key_file))
      × (config.tls_enabled ≡ false
          → (getenv "BUZZWEB_TLS_ENABLED" ≡ some "0")
            ⊎ (getenv "BUZZWEB_TLS_ENABLED" ≡ some "FALSE")
            ⊎ (getenv "BUZZWEB_TLS_ENABLED" ≡ some "false"))
unfolding load_config
load_config-tls getenv config e =
    let tls = tls_required (getenv "BUZZWEB_TLS_ENABLED") in
    let (same, files) =
      built tls (port_of (getenv "BUZZWEB_SERVER_PORT")) (tls_files getenv tls) config e in
    (
      λ on.
          tls_files-gave getenv config.certificate_file config.private_key_file
            (ap (tls_files getenv) (sym on ∙ same) ∙ files),
      λ off. tls_required-false (getenv "BUZZWEB_TLS_ENABLED") (sym same ∙ off),
    )
