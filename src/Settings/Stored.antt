-- ===== src/Settings/Stored.antt =====
-- internal/settings/servers.go: a server that is added, and read again.
use isitsql.Common.{
  ◌≡◌, ◌≢◌, ◌⊎◌, subst, refl, sym, inl, inr, true, false, not, ◌&&◌, Bool-cases, Option, some, [],
  ◌∷◌, Text, is_empty, if◌then◌else◌,
}
use isitsql.Maps.{lookup, insert, text_key}
use isitsql.Maps.Laws.{lookup-insert_same, lookup-insert_other}
use isitsql.Settings.{
  SqlServer, SqlCredential, Connections, invalid_credential, failed, done, Faults, save,
  unless_blank, crypt_server, is_known, configure_connection, add_sql_server, get_sql_server,
}
use isitsql.Settings.Links.{HasCredential}

abbrev pub no_faults : Faults
no_faults = record { read_fails = false; used_fails = false; save_fails = false }

-- dpapi: what is encrypted is not blank, and is decrypted again.
abbrev pub Crypts : (Text → Option Text) → (Text → Option Text) → Type 0
Crypts encrypt decrypt =
    (t : Text) → (u : Text) × (encrypt t ≡ some u) × (is_empty u ≡ false) × (decrypt u ≡ some t)

-- The test of AddSQLServer lets a server with a known credential pass.
known-passes :
    (a next : Connections) (s : SqlServer)
    → HasCredential a s
    → (if not (is_empty s.credential_key)
          && not (is_known (lookup s.credential_key a.sql_credentials))
        then failed invalid_credential
        else save no_faults next)
      ≡ done next
known-passes a next s (inl blank) = rw blank refl
known-passes a next s (inr (c, known)) = elim (Bool-cases (is_empty s.credential_key)) [
  | inl blank ↦ rw blank refl
  | inr given ↦ rw given (rw known refl)
]

module _ (encrypt decrypt : Text → Option Text) (crypts : Crypts encrypt decrypt) where
  unless_blank-back :
      (t : Text)
      → (u : Text) × (unless_blank encrypt t ≡ done u) × (unless_blank decrypt u ≡ done t)
  unless_blank-back [] = ([], refl, refl)
  unless_blank-back (x ∷ t) =
      let (u, e, full, d) = crypts (x ∷ t) in (u, rw e refl, rw full (rw d refl))

  crypt_server-back :
      (c : SqlServer)
      → (s : SqlServer) × (crypt_server encrypt c ≡ done s)
        × (s.credential_key ≡ c.credential_key)
        × (crypt_server decrypt s ≡ done c)
  crypt_server-back c =
      let (p, ep, dp) = unless_blank-back c.password in
      let (u, eu, du) = unless_blank-back c.custom_connection_string in
      (
        record c { password = p; custom_connection_string = u },
        rw (crypt_server, ep) (rw eu refl),
        refl,
        rw (crypt_server, dp) (rw du refl),
      )

  -- Where dpapi decrypts what it encrypted, and no file operation fails: adding a server that has a way to log in, and
  -- whose credential is in the file if that is the way, succeeds. The server is then read from the file under its
  -- new key as configureConnection left it, with the password and the connection string in the clear, and
  -- every other key reads as before.
  pub get_sql_server-add_sql_server :
      (key : Text) (s c : SqlServer) (a : Connections)
      → configure_connection (record s { server_key = key }) ≡ some c
      → HasCredential a c
      → (a' : Connections) × (add_sql_server encrypt decrypt no_faults key s a ≡ done (key, a'))
        × (get_sql_server encrypt decrypt no_faults key a' ≡ done c)
        × ((k : Text)
            → k ≢ key
            → get_sql_server encrypt decrypt no_faults k a'
              ≡ get_sql_server encrypt decrypt no_faults k a)
  unfolding add_sql_server get_sql_server
  get_sql_server-add_sql_server key s c a configured has =
      let (s', encrypted, same, decrypted) = crypt_server-back c in
      let a' : Connections = record a { sql_servers = insert key s' a.sql_servers } in
      let has' : HasCredential a s' =
        subst
          (λ k. (is_empty k ≡ true) ⊎ ((d : SqlCredential) × (lookup k a.sql_credentials ≡ some d)))
          (sym same) has in
      let here = lookup-insert_same key s' a.sql_servers in
      (
        a',
        rw (add_sql_server, configured) (rw encrypted (rw (known-passes a a' s' has') refl)),
        rw (get_sql_server, here) decrypted,
        λ k other. rw (get_sql_server, lookup-insert_other k key s' a.sql_servers other) refl,
      )
