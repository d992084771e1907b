-- ===== src/Settings/Operations.antt =====
-- internal/settings: what each operation leaves of the links of servers to credentials.
use isitsql.Common.{
  ◌≡◌, ◌⊎◌, sym, ap, ap₂, ◌∙◌, subst, inl, inr, true, false, not, ◌&&◌, Bool-cases, Option-cases,
  Option, some, Text, is_empty, text_eq, if◌then◌else◌,
}
use isitsql.Maps.{lookup, insert, text_key}
use isitsql.Maps.Laws.{same-false, lookup-keep_if_kept}
use isitsql.Settings.{
  SqlServer, SqlCredential, Connections, invalid_credential, credential_is_used, no_name, no_login,
  read_failed, no_way_to_log_in, not_found, crypt_failed, Answer, failed, done, or_fail, Faults,
  read, save, configure_connection, crypt_server, is_known, any_uses, is_used, without,
  add_sql_server, save_sql_server, delete_sql_server, add_sql_credential, save_sql_credential,
  delete_sql_credential,
}
use isitsql.Settings.Answers.{
  value_or, guard-done, found-done, bind-done, or_fail-done, read-done, save-done,
  crypt_server-credential_key, done_inj,
}
use isitsql.Settings.Links.{
  HasCredential, IsLinked, lookup-without, unused, put_server-IsLinked, put_credential-IsLinked,
}

abbrev kept : Text → Connections → Answer (Text × Connections)
kept k a = done (k, a)

second_inj : (k j : Text) (a b : Connections) → kept k a ≡ kept j b → a ≡ b
second_inj k j a b h =
    ap (λ (p : Answer (Text × Connections)). (value_or {A = Text × Connections} (k, a) p).1) h

-- What the test of AddSQLServer lets pass
checked :
    (a b : Connections) (f : Faults) (s : SqlServer) (next : Connections)
    → (if not (is_empty s.credential_key)
          && not (is_known (lookup s.credential_key a.sql_credentials))
        then failed invalid_credential
        else save f next)
      ≡ done b
    → HasCredential a s × (next ≡ b)
checked a b f s next h = elim (Bool-cases (is_empty s.credential_key)) [
  | inl blank ↦ (
    inl blank,
    save-done f next b (
        sym (
          ap
            (λ c.
              if not c && not (is_known (lookup s.credential_key a.sql_credentials))
              then failed invalid_credential
              else save f next)
            blank)
        ∙ h),
  )
  | inr given ↦ elim (Option-cases (lookup s.credential_key a.sql_credentials)) [
    | inr (c, known) ↦ (
      inr (c, known),
      save-done f next b (
          sym (
            ap
              (λ o.
                if not (is_empty s.credential_key) && not (is_known o)
                then failed invalid_credential
                else save f next)
              known
            ∙ ap (λ c. if not c && false then failed invalid_credential else save f next) given)
          ∙ h),
    )
    | inl unknown ↦ absurd (
        cc (
          sym (
            ap
              (λ o.
                if not (is_empty s.credential_key) && not (is_known o)
                then failed invalid_credential
                else save f next)
              unknown
            ∙ ap (λ c. if not c && true then failed invalid_credential else save f next) given)
          ∙ h))
  ]
]

module _ (encrypt decrypt : Text → Option Text) where
  pub add_sql_server-IsLinked :
      (f : Faults) (key : Text) (s : SqlServer) (a b : Connections) (k : Text)
      → IsLinked a
      → add_sql_server encrypt decrypt f key s a ≡ done (k, b)
      → IsLinked b
  unfolding add_sql_server
  add_sql_server-IsLinked f key s a b k h e =
      let (a1, r, e1) = bind-done (read f a) _ (k, b) e in
      let (c, r1, e2) =
        bind-done (or_fail no_way_to_log_in (configure_connection (record s { server_key = key })))
          _ (k, b) e1 in
      let (s', r2, e3) = bind-done (crypt_server encrypt c) _ (k, b) e2 in
      let next : Connections = record a1 { sql_servers = insert key s' a1.sql_servers } in
      let (b', r3, e4) =
        bind-done
          (if not (is_empty s'.credential_key)
              && not (is_known (lookup s'.credential_key a1.sql_credentials))
            then failed invalid_credential
            else save f next)
          _ (k, b) e3 in
      let (has, same) = checked a1 b' f s' next r3 in
      subst IsLinked (same ∙ second_inj key k b' b e4)
        (put_server-IsLinked a1 key s' (subst IsLinked (read-done f a a1 r) h) has)

  pub save_sql_server-IsLinked :
      (f : Faults) (key : Text) (s : SqlServer) (a b : Connections)
      → IsLinked a
      → ((c : SqlServer) → configure_connection s ≡ some c → HasCredential a c)
      → save_sql_server encrypt decrypt f key s a ≡ done b
      → IsLinked b
  unfolding save_sql_server
  save_sql_server-IsLinked f key s a b h has e =
      let (a1, r, e1) = bind-done (read f a) _ b e in
      let (old, r0, e2) = bind-done (or_fail not_found (lookup key a1.sql_servers)) _ b e1 in
      let (c, r1, e3) = bind-done (or_fail no_way_to_log_in (configure_connection s)) _ b e2 in
      let (s', r2, e4) = bind-done (crypt_server encrypt c) _ b e3 in
      let same = read-done f a a1 r in
      let has' : HasCredential a1 s' =
        subst
          (λ k.
            (is_empty k ≡ true) ⊎ ((d : SqlCredential) × (lookup k a1.sql_credentials ≡ some d)))
          (sym (crypt_server-credential_key encrypt c s' r2))
          (subst (λ x. HasCredential x c) same
            (has c (or_fail-done no_way_to_log_in (configure_connection s) c r1))) in
      subst IsLinked (save-done f _ b e4)
        (put_server-IsLinked a1 s'.server_key s' (subst IsLinked same h) has')

  pub add_sql_credential-IsLinked :
      (f : Faults) (key name login password k : Text) (a b : Connections)
      → IsLinked a
      → add_sql_credential encrypt decrypt f key name login password a ≡ done (k, b)
      → IsLinked b
  unfolding add_sql_credential
  add_sql_credential-IsLinked f key name login password k a b h e =
      let (a1, r, e1) = bind-done (read f a) _ (k, b) e in
      let (p, r1, e2) = bind-done (or_fail crypt_failed (encrypt password)) _ (k, b) e1 in
      let c : SqlCredential = record {
        credential_key = key;
        name = name;
        login = login;
        password = p;
      } in
      let next : Connections = record a1 { sql_credentials = insert key c a1.sql_credentials } in
      let (b', r2, e3) = bind-done (save f next) _ (k, b) e2 in
      subst IsLinked (save-done f next b' r2 ∙ second_inj key k b' b e3)
        (put_credential-IsLinked a1 c (subst IsLinked (read-done f a a1 r) h))

pub delete_sql_server-IsLinked :
    (f : Faults) (key : Text) (a b : Connections)
    → IsLinked a
    → delete_sql_server f key a ≡ done b
    → IsLinked b
unfolding delete_sql_server
delete_sql_server-IsLinked f key a b h e =
    let (a1, r, e1) = bind-done (read f a) _ b e in
    let h1 = subst IsLinked (read-done f a a1 r) h in
    elim (found-done (lookup key a1.sql_servers) _ _ b e1) [
      | inl same ↦ subst IsLinked (done_inj a1 b same) h1
      | inr (s, there, e2) ↦
          let fewer : IsLinked (record a1 { sql_servers = without key a1.sql_servers }) =
            (λ k t q. h1.0 k t (lookup-without key k t a1.sql_servers q).1, h1.1) in
          subst IsLinked (save-done f _ b e2) fewer
    ]

-- A credential that no server uses can go.
drop_credential-IsLinked :
    (a : Connections) (key : Text)
    → IsLinked a
    → any_uses key a.sql_servers ≡ false
    → IsLinked (record a { sql_credentials = without key a.sql_credentials })
drop_credential-IsLinked a key (links, own) none_use = (
  λ k s e. elim (links k s e) [
    | inl blank ↦ inl blank
    | inr (d, known) ↦
        let other = unused key a.sql_servers k s none_use e in
        let stays : not (text_eq s.credential_key key) ≡ true =
          ap not (same-false s.credential_key key other) in
        inr (
          d,
          lookup-keep_if_kept s.credential_key (λ j. not (text_eq j key)) a.sql_credentials stays
              ∙ known,
        )
  ],
  λ k c e. own k c (lookup-without key k c a.sql_credentials e).1,
)

pub delete_sql_credential-IsLinked :
    (f : Faults) (key : Text) (a b : Connections)
    → IsLinked a
    → delete_sql_credential f key a ≡ done b
    → IsLinked b
unfolding delete_sql_credential
delete_sql_credential-IsLinked f key a b h e =
    let (a1, r, e1) = bind-done (read f a) _ b e in
    let same = read-done f a a1 r in
    let h1 = subst IsLinked same h in
    elim (found-done (lookup key a1.sql_credentials) _ _ b e1) [
      | inl gone ↦ subst IsLinked (done_inj a1 b gone) h1
      | inr (c, there, e2) ↦
          let (used, asked, e3) = bind-done (is_used f c.credential_key a) _ b e2 in
          let (not_used, e4) = guard-done used credential_is_used _ b e3 in
          let scan =
            done_inj (any_uses c.credential_key a.sql_servers) used
              (guard-done f.used_fails read_failed (done (any_uses c.credential_key a.sql_servers))
                used asked).1 in
          let none_use : any_uses key a1.sql_servers ≡ false =
            sym (ap₂ (λ k x. any_uses k x.sql_servers) (h1.1 key c there) same) ∙ scan ∙ not_used in
          subst IsLinked (save-done f _ b e4) (drop_credential-IsLinked a1 key h1 none_use)
    ]

module _ (encrypt decrypt : Text → Option Text) where
  pub save_sql_credential-IsLinked :
      (f : Faults) (c : SqlCredential) (a b : Connections)
      → IsLinked a
      → save_sql_credential encrypt decrypt f c a ≡ done b
      → IsLinked b
  unfolding save_sql_credential
  save_sql_credential-IsLinked f c a b h e =
      let (named, e1) = guard-done (is_empty c.name) no_name _ b e in
      let (logs_in, e2) = guard-done (is_empty c.login) no_login _ b e1 in
      let (a1, r, e3) = bind-done (read f a) _ b e2 in
      let (x, found, e4) =
        bind-done (or_fail not_found (lookup c.credential_key a1.sql_credentials)) _ b e3 in
      let (p, r1, e5) =
        bind-done
          (if is_empty c.password
            then done x.password
            else or_fail crypt_failed (encrypt c.password))
          _ b e4 in
      let h1 = subst IsLinked (read-done f a a1 r) h in
      let x' : SqlCredential = record x { login = c.login; name = c.name; password = p } in
      let own : x.credential_key ≡ c.credential_key =
        h1.1 c.credential_key x
          (or_fail-done not_found (lookup c.credential_key a1.sql_credentials) x found) in
      subst IsLinked (save-done f _ b e5) (
        subst (λ k. IsLinked (record a1 { sql_credentials = insert k x' a1.sql_credentials })) own
          (put_credential-IsLinked a1 x' h1))
