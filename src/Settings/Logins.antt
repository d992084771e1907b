-- ===== src/Settings/Logins.antt =====
-- internal/settings/servers.go: the one way to log in that configureConnection leaves.
use isitsql.Common.{
  ◌≡◌, refl, Bool, true, false, not, ◌&&◌, Option, none, some, [], ◌∷◌, Text, is_empty,
  if◌then◌else◌,
}
use isitsql.Settings.{
  SqlServer, Connections, Answer, failed, done, ◌>>=◌, or_fail, no_way_to_log_in, Faults,
  configure_connection, get_sql_credential, connection_string,
}

-- The ways to log in, with what they need
pub data Way : Type 0 where
  trusted : Way
  custom : Text → Way
  credential : Text → Way
  login : Text → Text → Way

-- The way that a server asks for: the first one in this order
abbrev pub way_of : SqlServer → Option Way
way_of s =
    if s.trusted_connection
    then some trusted
    else if not (is_empty s.custom_connection_string)
    then some (custom s.custom_connection_string)
    else if not (is_empty s.credential_key)
    then some (credential s.credential_key)
    else if not (is_empty s.login) && not (is_empty s.password)
    then some (login s.login s.password)
    else none

-- A server with one way to log in, and nothing of the others
abbrev pub with_way : SqlServer → Way → SqlServer
with_way s trusted = record s {
  trusted_connection = true;
  custom_connection_string = [];
  credential_key = [];
  login = [];
  password = [];
}
with_way s (custom text) = record s {
  trusted_connection = false;
  custom_connection_string = text;
  credential_key = [];
  login = [];
  password = [];
}
with_way s (credential key) = record s {
  trusted_connection = false;
  custom_connection_string = [];
  credential_key = key;
  login = [];
  password = [];
}
with_way s (login name password) = record s {
  trusted_connection = false;
  custom_connection_string = [];
  credential_key = [];
  login = name;
  password = password;
}

abbrev pub configured : SqlServer → Option SqlServer
configured s = elim (way_of s) [ some way ↦ some (with_way s way) | none ↦ none ]

module _ (connection : Text → Text → Text → Text) (encrypt decrypt : Text → Option Text)
    (f : Faults) (file : Connections) where
  -- The connection string of a way to log in
  abbrev pub string_of : SqlServer → Way → Answer Text
  string_of s trusted = done (connection s.fqdn [] [])
  string_of s (custom text) = done text
  string_of s (credential key) = get_sql_credential encrypt decrypt f key file >>= λ c.
      done (connection s.fqdn c.login c.password)
  string_of s (login name password) = done (connection s.fqdn name password)

module _ (connection : Text → Text → Text → Text) (encrypt decrypt : Text → Option Text)
    (f : Faults) (file : Connections) where
  -- The connection string of the server as it is configured
  abbrev pub configured_string : SqlServer → Answer Text
  configured_string s = or_fail no_way_to_log_in (configure_connection s) >>= λ c.
      connection_string encrypt decrypt connection f c file

  abbrev pub way_string : SqlServer → Answer Text
  way_string s = elim (way_of s) [
    | some way ↦ string_of connection encrypt decrypt f file s way
    | none ↦ failed no_way_to_log_in
  ]

  abbrev LogsIn : SqlServer → Type 0
  LogsIn s = (configure_connection s ≡ configured s) × (configured_string s ≡ way_string s)

  by_fields :
      (key fqdn friendly : Text) (t : Bool) (text cred name password : Text)
      → LogsIn (record {
        server_key = key;
        fqdn = fqdn;
        friendly_name = friendly;
        trusted_connection = t;
        credential_key = cred;
        login = name;
        password = password;
        custom_connection_string = text;
      })
  unfolding configure_connection connection_string
  by_fields key fqdn friendly true text cred name password = (refl, refl)
  by_fields key fqdn friendly false (u ∷ text) cred name password = (refl, refl)
  by_fields key fqdn friendly false [] (c ∷ cred) name password = (refl, refl)
  by_fields key fqdn friendly false [] [] (l ∷ name) (p ∷ password) = (refl, refl)
  by_fields key fqdn friendly false [] [] (l ∷ name) [] = (refl, refl)
  by_fields key fqdn friendly false [] [] [] password = (refl, refl)

  -- configureConnection leaves of the ways to log in the first that the server has: trusted, a connection string, a
  -- credential, or else a login with a password, and it fails if there is none. ConnectionString, which looks in another
  -- order, then takes just that way, with the login and the password of the credential if it is one.
  pub connection_string-configure_connection :
      (s : SqlServer)
      → (configure_connection s ≡ configured s) × (configured_string s ≡ way_string s)
  connection_string-configure_connection s =
      by_fields s.server_key s.fqdn s.friendly_name s.trusted_connection s.custom_connection_string
        s.credential_key s.login s.password
