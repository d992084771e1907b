-- ===== src/Settings/Tests.antt =====
-- Operations on a concrete file of connections, and the theorems on them.
use isitsql.Common.{
  ◌≡◌, ◌≢◌, ◌⊎◌, refl, sym, ap, is_empty, inl, true, false, Option, none, some, List, [], ◌∷◌, Text,
  codes, text_eq,
}
use isitsql.Maps.{lookup, text_key}
use isitsql.Settings.{
  SqlServer, SqlCredential, Connections, new_connections, Answer, or_fail, not_found, crypt_server,
  get_sql_credential, failed, done, Error, credential_is_used, no_way_to_log_in,
  configure_connection, add_sql_server, get_sql_server, add_sql_credential, delete_sql_credential,
  connection_string,
}
use isitsql.Settings.Readable.{
  AnyFails, decrypt_credential, read_connections_decrypted, read_connections_decrypted-cases,
}
use isitsql.Settings.Stored.{no_faults, Crypts, get_sql_server-add_sql_server}
use isitsql.Settings.Logins.{
  configured, configured_string, way_string, connection_string-configure_connection,
}
use isitsql.Settings.Links.{HasCredential, IsLinked}
use isitsql.Settings.Calls.{
  Call, add_server, save_server, delete_server, add_credential, save_credential, delete_credential,
  call_all, AreAllowed, call_all-IsLinked,
}

-- A cipher that puts one code unit in front
abbrev encrypt : Text → Option Text
encrypt t = some (1 ∷ t)

abbrev decrypt : Text → Option Text
decrypt [] = none
decrypt (c ∷ t) = some t

encrypt-Crypts : Crypts encrypt decrypt
encrypt-Crypts t = (1 ∷ t, refl, refl, refl)

abbrev server : Text → Text → Text → SqlServer
server cred login password = record {
  server_key = codes "old";
  fqdn = codes "db.local";
  friendly_name = [];
  trusted_connection = false;
  credential_key = cred;
  login = login;
  password = password;
  custom_connection_string = [];
}

abbrev by_login : SqlServer
by_login = server [] (codes "sa") (codes "secret")

get_sql_server-add_sql_server_example :
    (a' : Connections) × (add_sql_server encrypt decrypt no_faults
        (codes "k")
        by_login
        new_connections
      ≡ done (codes "k", a'))
    × (get_sql_server encrypt decrypt no_faults (codes "k") a'
        ≡ done (record by_login { server_key = codes "k" }))
    × ((k : Text)
        → k ≢ codes "k"
        → get_sql_server encrypt decrypt no_faults k a'
          ≡ get_sql_server encrypt decrypt no_faults k new_connections)
unfolding configure_connection
get_sql_server-add_sql_server_example =
    get_sql_server-add_sql_server encrypt decrypt encrypt-Crypts (codes "k") by_login
      (record by_login { server_key = codes "k" }) new_connections refl (inl refl)

abbrev joined : Text → Text → Text → Text
joined fqdn login password = fqdn

connection_string-configure_connection_example :
    (configure_connection by_login ≡ configured by_login)
    × (configured_string joined encrypt decrypt no_faults new_connections by_login
        ≡ way_string joined encrypt decrypt no_faults new_connections by_login)
connection_string-configure_connection_example =
    connection_string-configure_connection joined encrypt decrypt no_faults new_connections by_login

-- The credential c is used by the server k, so it cannot be deleted until the server is.
abbrev first_calls : List Call
first_calls =
    add_credential no_faults (codes "c") (codes "name") (codes "sa") (codes "secret")
    ∷ add_server no_faults (codes "k") (server (codes "c") [] [])
    ∷ delete_credential no_faults (codes "c")
    ∷ []

abbrev calls : List Call
calls =
    add_credential no_faults (codes "c") (codes "name") (codes "sa") (codes "secret")
    ∷ add_server no_faults (codes "k") (server (codes "c") [] [])
    ∷ delete_credential no_faults (codes "c")
    ∷ save_server no_faults (codes "k") by_login
    ∷ add_server no_faults (codes "j") (server (codes "d") [] [])
    ∷ []

by_login-HasCredential :
    (a : Connections) (c : SqlServer) → configure_connection by_login ≡ some c → HasCredential a c
unfolding configure_connection
by_login-HasCredential a c e =
    inl (ap (λ o. elim o [ some s ↦ is_empty s.credential_key | none ↦ true ]) (sym e))

calls-AreAllowed : AreAllowed encrypt decrypt calls new_connections
unfolding isitsql.Settings.Calls.call call_all
calls-AreAllowed = (
  tt,
  (
    tt,
    (
      tt,
      (
        (λ c e. by_login-HasCredential (call_all encrypt decrypt first_calls new_connections) c e),
        (tt, tt),
      ),
    ),
  ),
)

call_all-IsLinked_example : IsLinked (call_all encrypt decrypt calls new_connections)
call_all-IsLinked_example = call_all-IsLinked encrypt decrypt calls calls-AreAllowed

used_run :
    delete_sql_credential no_faults (codes "c") (
      call_all encrypt decrypt
        (add_credential no_faults (codes "c") (codes "name") (codes "sa") (codes "secret")
          ∷ add_server no_faults (codes "k") (server (codes "c") [] [])
          ∷ [])
        new_connections)
    ≡ failed credential_is_used
unfolding call_all delete_sql_credential text_eq
used_run = refl

abbrev stored : Connections
stored = record {
  sql_credentials =
      (
        codes "c",
        record {
          credential_key = codes "c";
          name = codes "name";
          login = codes "sa";
          password = codes "xyz";
        },
      )
      ∷ [];
  sql_servers = (codes "k", server [] (codes "sa") (codes "xpw")) ∷ [];
}

abbrev readable : Connections
readable = record {
  sql_credentials =
      (
        codes "c",
        record {
          credential_key = codes "c";
          name = codes "name";
          login = codes "sa";
          password = codes "yz";
        },
      )
      ∷ [];
  sql_servers = (codes "k", server [] (codes "sa") (codes "pw")) ∷ [];
}

readable_run : read_connections_decrypted decrypt no_faults stored ≡ done readable
unfolding read_connections_decrypted
readable_run = refl

read_connections_decrypted-cases_example :
    ((e : Error) × (AnyFails (decrypt_credential decrypt) stored.sql_credentials e
        ⊎ AnyFails (crypt_server decrypt) stored.sql_servers e)
      × (read_connections_decrypted decrypt no_faults stored ≡ failed e))
    ⊎ ((d : Connections) × (read_connections_decrypted decrypt no_faults stored ≡ done d)
        × ((k : Text)
            → get_sql_server encrypt decrypt no_faults k stored
              ≡ or_fail not_found (lookup k d.sql_servers))
        × ((k : Text) (c : SqlCredential)
            → lookup k stored.sql_credentials ≡ some c
            → is_empty c.password ≡ false
            → get_sql_credential encrypt decrypt no_faults k stored
              ≡ or_fail not_found (lookup k d.sql_credentials)))
read_connections_decrypted-cases_example = read_connections_decrypted-cases encrypt decrypt stored
