-- ===== src/Settings.antt =====
-- internal/settings: servers.go, credentials.go and connections.go, the servers and credentials that the pages of the
-- settings add, save and delete. The file connections.json is the state: an operation reads it, and
-- changes it only when it saves. Whether reading and writing the file fail is given to each operation, and so is the
-- new key that uuid.NewV4 gives. dpapi.Encrypt and dpapi.Decrypt are parameters, `none` being an error, and so
-- is the text of a mssqlh connection. The operations run one after another. Of a server the fields are kept that
-- say how to reach it; the others are only stored.
pub mod Answers
pub mod Logins
pub mod Stored
pub mod Readable
pub mod Links
pub mod Operations
pub mod Calls
mod Tests
use isitsql.Common.{
  Bool, true, false, not, ◌&&◌, ◌||◌, Option, none, some, List, [], ◌∷◌, ◌++◌, Text, codes,
  is_empty, text_eq, if◌then◌else◌,
}
use isitsql.Maps.{Map, lookup, insert, keep_if, text_key}

pub record SqlServer : Type 0 where
  pub server_key : Text
  pub fqdn : Text
  pub friendly_name : Text
  pub trusted_connection : Bool
  pub credential_key : Text
  pub login : Text
  pub password : Text
  pub custom_connection_string : Text

pub record SqlCredential : Type 0 where
  pub credential_key : Text
  pub name : Text
  pub login : Text
  pub password : Text

pub record Connections : Type 0 where
  pub sql_credentials : Map Text SqlCredential
  pub sql_servers : Map Text SqlServer

abbrev pub new_connections : Connections
new_connections = record { sql_credentials = []; sql_servers = [] }

pub data Error : Type 0 where
  read_failed : Error
  save_failed : Error
  crypt_failed : Error
  no_way_to_log_in : Error
  invalid_credential : Error
  not_found : Error
  credential_is_used : Error
  no_name : Error
  no_login : Error
  no_connection_string : Error

pub data Answer (A : Type 0) : Type 0 where
  failed : Error → Answer A
  done : A → Answer A

infixl 20 ◌>>=◌
abbrev pub ◌>>=◌ : {A B : Type 0} → Answer A → (A → Answer B) → Answer B
failed e >>= f = failed e
done a >>= f = f a

abbrev pub or_fail : {A : Type 0} → Error → Option A → Answer A
or_fail e none = failed e
or_fail e (some a) = done a

-- Whether ReadConnections, the ReadConnections of IsUsed, and Save fail
pub record Faults : Type 0 where
  pub read_fails : Bool
  pub used_fails : Bool
  pub save_fails : Bool

abbrev pub read : Faults → Connections → Answer Connections
read f a = if f.read_fails then failed read_failed else done a

abbrev pub save : Faults → Connections → Answer Connections
save f a = if f.save_fails then failed save_failed else done a

-- configureConnection
unfoldable pub configure_connection : SqlServer → Option SqlServer
configure_connection s =
    if s.trusted_connection
    then some
        (record s { custom_connection_string = []; credential_key = []; login = []; password = [] })
    else if not (is_empty s.custom_connection_string)
    then some
        (record s { trusted_connection = false; credential_key = []; login = []; password = [] })
    else if not (is_empty s.credential_key)
    then some (record s {
      trusted_connection = false;
      custom_connection_string = [];
      login = [];
      password = [];
    })
    else if not (is_empty s.login) && not (is_empty s.password)
    then some (record s {
      trusted_connection = false;
      custom_connection_string = [];
      credential_key = [];
    })
    else none

-- ConnectionDescription
unfoldable pub connection_description : SqlServer → Text
connection_description s =
    if s.trusted_connection
    then codes "Trusted Connection"
    else if not (is_empty s.credential_key)
    then codes "Credential Key: " ++ s.credential_key
    else if not (is_empty s.login)
    then codes "SQL Server Login: " ++ s.login
    else if not (is_empty s.custom_connection_string)
    then codes "Custom Connection String"
    else codes "Invalid Connection"

-- LinkName
abbrev pub link_name : SqlServer → Text
link_name s =
    if not (is_empty s.fqdn)
    then s.fqdn
    else if not (is_empty s.friendly_name)
    then s.friendly_name
    else s.server_key

-- Encrypting or decrypting a text that is not blank
abbrev pub unless_blank : (Text → Option Text) → Text → Answer Text
unless_blank f t = if is_empty t then done t else or_fail crypt_failed (f t)

-- Both texts of a server
abbrev pub crypt_server : (Text → Option Text) → SqlServer → Answer SqlServer
crypt_server f s = unless_blank f s.password >>= λ password.
    unless_blank f s.custom_connection_string >>= λ custom.
    done (record s { password = password; custom_connection_string = custom })

abbrev pub is_known : {A : Type 0} → Option A → Bool
is_known o = elim o [ some a ↦ true | none ↦ false ]

-- The loop of IsUsed
abbrev pub any_uses : Text → Map Text SqlServer → Bool
any_uses key [] = false
any_uses key ((k, s) ∷ servers) = text_eq s.credential_key key || any_uses key servers

-- IsUsed
abbrev pub is_used : Faults → Text → Connections → Answer Bool
is_used f key a = if f.used_fails then failed read_failed else done (any_uses key a.sql_servers)

abbrev pub without : {A : Type 0} → Text → Map Text A → Map Text A
without key m = keep_if (λ k. not (text_eq k key)) m

module _ (encrypt decrypt : Text → Option Text) where
  -- AddSQLServer: the key and the file
  unfoldable pub add_sql_server :
      Faults → Text → SqlServer → Connections → Answer (Text × Connections)
  unfolding configure_connection lookup insert
  add_sql_server f key s file = read f file >>= λ a.
      or_fail no_way_to_log_in (configure_connection (record s { server_key = key })) >>= λ c.
      crypt_server encrypt c >>= λ s'.
      (if not (is_empty s'.credential_key)
          && not (is_known (lookup s'.credential_key a.sql_credentials))
        then failed invalid_credential
        else save f (record a { sql_servers = insert key s' a.sql_servers }))
      >>= λ file'. done (key, file')

  -- GetSQLServer
  unfoldable pub get_sql_server : Faults → Text → Connections → Answer SqlServer
  unfolding lookup
  get_sql_server f key file = read f file >>= λ a.
      or_fail not_found (lookup key a.sql_servers) >>= λ s. crypt_server decrypt s

  -- SaveSQLServer
  unfoldable pub save_sql_server : Faults → Text → SqlServer → Connections → Answer Connections
  unfolding configure_connection lookup insert
  save_sql_server f key s file = read f file >>= λ a.
      or_fail not_found (lookup key a.sql_servers) >>= λ old.
      or_fail no_way_to_log_in (configure_connection s) >>= λ c. crypt_server encrypt c >>= λ s'.
      save f (record a { sql_servers = insert s'.server_key s' a.sql_servers })

  -- AddSQLCredential
  unfoldable pub add_sql_credential :
      Faults → Text → Text → Text → Text → Connections → Answer (Text × Connections)
  unfolding insert
  add_sql_credential f key name login password file = read f file >>= λ a.
      or_fail crypt_failed (encrypt password) >>= λ p.
      let c : SqlCredential = record {
        credential_key = key;
        name = name;
        login = login;
        password = p;
      } in
      save f (record a { sql_credentials = insert key c a.sql_credentials }) >>= λ file'.
      done (key, file')

  -- SaveSQLCredential
  unfoldable pub save_sql_credential : Faults → SqlCredential → Connections → Answer Connections
  unfolding lookup insert
  save_sql_credential f c file =
      if is_empty c.name
      then failed no_name
      else if is_empty c.login
      then failed no_login
      else (read f file >>= λ a.
          or_fail not_found (lookup c.credential_key a.sql_credentials) >>= λ x.
          (if is_empty c.password
            then done x.password
            else or_fail crypt_failed (encrypt c.password))
          >>= λ p. save f (record a {
            sql_credentials =
                insert c.credential_key (record x { login = c.login; name = c.name; password = p })
                  a.sql_credentials;
          }))

  -- GetSQLCredential
  unfoldable pub get_sql_credential : Faults → Text → Connections → Answer SqlCredential
  unfolding lookup
  get_sql_credential f key file = read f file >>= λ a.
      or_fail not_found (lookup key a.sql_credentials) >>= λ c.
      or_fail crypt_failed (decrypt c.password) >>= λ p. done (record c { password = p })

  -- ConnectionString, where `connection` is mssqlh.NewConnection(fqdn, login, password, …).String()
  unfoldable pub connection_string :
      (Text → Text → Text → Text) → Faults → SqlServer → Connections → Answer Text
  unfolding get_sql_credential
  connection_string connection f s file =
      if s.trusted_connection
      then done (connection s.fqdn [] [])
      else if not (is_empty s.custom_connection_string)
      then done s.custom_connection_string
      else if not (is_empty s.login)
      then done (connection s.fqdn s.login s.password)
      else if not (is_empty s.credential_key)
      then (get_sql_credential f s.credential_key file >>= λ c.
          done (connection s.fqdn c.login c.password))
      else failed no_connection_string

-- DeleteSQLCredential
unfoldable pub delete_sql_credential : Faults → Text → Connections → Answer Connections
unfolding lookup keep_if text_eq
delete_sql_credential f key file = read f file >>= λ a. elim (lookup key a.sql_credentials) [
  | none ↦ done a
  | some c ↦ is_used f c.credential_key file >>= λ used.
      if used
      then failed credential_is_used
      else save f (record a { sql_credentials = without key a.sql_credentials })
]

-- DeleteSQLServer
unfoldable pub delete_sql_server : Faults → Text → Connections → Answer Connections
unfolding lookup keep_if text_eq
delete_sql_server f key file = read f file >>= λ a. elim (lookup key a.sql_servers) [
  | none ↦ done a
  | some s ↦ save f (record a { sql_servers = without key a.sql_servers })
]
