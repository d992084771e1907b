-- ===== src/Settings/Readable.antt =====
-- internal/settings/connections.go: ReadConnectionsDecrypted, the whole file in the clear, beside the operations that read
-- one server or one credential. On an error what has been decrypted so far is dropped. The order in which Go
-- goes over a map does not show in the answer; here it is the order of the entries.
use isitsql.Common.{
  ◌≡◌, refl, sym, ap, ◌∙◌, ◌⊎◌, inl, inr, Bool-cases, Option, some, [], ◌∷◌, Text, is_empty,
  text_eq, false,
}
use isitsql.Maps.{Map, lookup, text_key}
use isitsql.Settings.{
  SqlCredential, Connections, Error, crypt_failed, not_found, Answer, failed, done, ◌>>=◌, or_fail,
  Faults, read, unless_blank, crypt_server, get_sql_server, get_sql_credential,
}
use isitsql.Settings.Stored.{no_faults}

-- A loop over a map that changes each value
unfoldable crypt_all : {A : Type 0} → (A → Answer A) → Map Text A → Answer (Map Text A)
crypt_all g [] = done []
crypt_all g ((k, a) ∷ m) = g a >>= λ b. crypt_all g m >>= λ m'. done ((k, b) ∷ m')

abbrev pub decrypt_credential : (Text → Option Text) → SqlCredential → Answer SqlCredential
decrypt_credential decrypt c =
    unless_blank decrypt c.password >>= λ p. done (record c { password = p })

-- ReadConnectionsDecrypted
unfoldable pub read_connections_decrypted :
    (Text → Option Text) → Faults → Connections → Answer Connections
unfolding crypt_all
read_connections_decrypted decrypt f file = read f file >>= λ a.
    crypt_all (decrypt_credential decrypt) a.sql_credentials >>= λ creds.
    crypt_all (crypt_server decrypt) a.sql_servers >>= λ servers.
    done (record { sql_credentials = creds; sql_servers = servers })

-- Some value of the map fails.
abbrev pub AnyFails : {A : Type 0} → (A → Answer A) → Map Text A → Error → Type 0
AnyFails g [] e = ⊥
AnyFails g ((k, a) ∷ m) e = (g a ≡ failed e) ⊎ AnyFails g m e

-- Every key has the value that it had, changed.
abbrev IsChanged : {A : Type 0} → (A → Answer A) → Map Text A → Map Text A → Type 0
IsChanged g m m' =
    (k : Text) → (or_fail not_found (lookup k m) >>= g) ≡ or_fail not_found (lookup k m')

answer-cases :
    {A : Type 0} (x : Answer A) → ((e : Error) × (x ≡ failed e)) ⊎ ((a : A) × (x ≡ done a))
answer-cases (failed e) = inl (e, refl)
answer-cases (done a) = inr (a, refl)

IsChanged-cons :
    {A : Type 0} (g : A → Answer A) (k : Text) (a b : A) (m m' : Map Text A)
    → g a ≡ done b
    → IsChanged g m m'
    → IsChanged g ((k, a) ∷ m) ((k, b) ∷ m')
unfolding lookup
IsChanged-cons g k a b m m' q h j = elim (Bool-cases (text_eq k j)) [
  | inl same ↦ rw (lookup, same) q
  | inr other ↦ rw (lookup, other) (h j)
]

crypt_all-cases :
    {A : Type 0} (g : A → Answer A) (m : Map Text A)
    → ((e : Error) × AnyFails g m e × (crypt_all g m ≡ failed e))
      ⊎ ((m' : Map Text A) × IsChanged g m m' × (crypt_all g m ≡ done m'))
unfolding crypt_all lookup
crypt_all-cases g [] = inr ([], λ k. refl, refl)
crypt_all-cases g ((k, a) ∷ m) =
    let rest = crypt_all-cases g m in
    elim (answer-cases (g a)) [
      | inl (e, q) ↦ inl (e, inl q, rw (crypt_all, q) refl)
      | inr (b, q) ↦ elim rest [
        | inl (e, fails, p) ↦ inl (e, inr fails, rw (crypt_all, q) (rw p refl))
        | inr (m', h, p) ↦
            inr ((k, b) ∷ m', IsChanged-cons g k a b m m' q h, rw (crypt_all, q) (rw p refl))
      ]
    ]

module _ (encrypt decrypt : Text → Option Text) where
  -- A credential with a password is decrypted like GetSQLCredential does.
  decrypt_credential-full :
      (c : SqlCredential)
      → is_empty c.password ≡ false
      → decrypt_credential decrypt c
        ≡ (or_fail crypt_failed (decrypt c.password) >>= λ p. done (record c { password = p }))
  decrypt_credential-full c full = rw full refl

  -- Where the file can be read: either a password or a connection string in it cannot be decrypted, and
  -- ReadConnectionsDecrypted fails with that; or it answers a map of servers that has for every key what GetSQLServer
  -- answers for it, and a map of credentials that has for every key of a credential with a password what GetSQLCredential
  -- answers for it.
  pub read_connections_decrypted-cases :
      (a : Connections)
      → ((e : Error) × (AnyFails (decrypt_credential decrypt) a.sql_credentials e
            ⊎ AnyFails (crypt_server decrypt) a.sql_servers e)
          × (read_connections_decrypted decrypt no_faults a ≡ failed e))
        ⊎ ((d : Connections) × (read_connections_decrypted decrypt no_faults a ≡ done d)
            × ((k : Text)
                → get_sql_server encrypt decrypt no_faults k a
                  ≡ or_fail not_found (lookup k d.sql_servers))
            × ((k : Text) (c : SqlCredential)
                → lookup k a.sql_credentials ≡ some c
                → is_empty c.password ≡ false
                → get_sql_credential encrypt decrypt no_faults k a
                  ≡ or_fail not_found (lookup k d.sql_credentials)))
  unfolding read_connections_decrypted get_sql_server get_sql_credential
  read_connections_decrypted-cases a =
      elim (crypt_all-cases (decrypt_credential decrypt) a.sql_credentials) [
        | inl (e, fails, q) ↦ inl (e, inl fails, rw (read_connections_decrypted, q) refl)
        | inr (creds, of_creds, q) ↦ elim (crypt_all-cases (crypt_server decrypt) a.sql_servers) [
          | inl (e, fails, p) ↦ inl (e, inr fails, rw (read_connections_decrypted, q) (rw p refl))
          | inr (servers, of_servers, p) ↦ inr (
            record { sql_credentials = creds; sql_servers = servers },
            rw (read_connections_decrypted, q) (rw p refl),
            of_servers,
            λ k c has full.
                rw (get_sql_credential, has)
                  (sym (decrypt_credential-full c full)
                    ∙ sym (ap (λ o. or_fail not_found o >>= decrypt_credential decrypt) has)
                    ∙ of_creds k),
          )
        ]
      ]
