-- ===== src/Settings/Links.antt =====
-- internal/settings: the credentials that servers use, over any operations on the file.
use isitsql.Common.{
  ◌≡◌, ◌≢◌, ◌⊎◌, refl, sym, ap, ◌∙◌, subst, inl, inr, true, false, not, Bool-cases, none, some, [],
  ◌∷◌, Text, is_empty, text_eq, text_eq_iff, or_left, or_right, if◌then◌else◌,
}
use isitsql.Maps.{Map, lookup, insert, text_key}
use isitsql.Maps.Laws.{
  key-cases, same-false, lookup-insert_same, lookup-insert_other, lookup-keep_if_kept,
  lookup-keep_if_dropped,
}
use isitsql.Settings.{SqlServer, SqlCredential, Connections, any_uses, without}

-- The server has no credential, or one of the file.
abbrev pub HasCredential : Connections → SqlServer → Type 0
HasCredential a s =
    (is_empty s.credential_key ≡ true)
    ⊎ ((c : SqlCredential) × (lookup s.credential_key a.sql_credentials ≡ some c))

-- Each server has no credential or one of the file, and each credential stands under its own key.
abbrev pub IsLinked : Connections → Type 0
IsLinked a =
    ((k : Text) (s : SqlServer) → lookup k a.sql_servers ≡ some s → HasCredential a s)
    × ((k : Text) (c : SqlCredential) → lookup k a.sql_credentials ≡ some c → c.credential_key ≡ k)

pub some_inj : {A : Type 0} (a b : A) → some a ≡ some b → a ≡ b
some_inj a b h = ap (λ o. elim o [ some x ↦ x | none ↦ a ]) h

-- What holds of an entry and of all others holds of all when the entry is in.
after_insert :
    {A : Type 0} (P : Text → A → Type 0) (key : Text) (v : A) (m : Map Text A)
    → P key v
    → ((k : Text) (w : A) → lookup k m ≡ some w → P k w)
    → (k : Text) (w : A) → lookup k (insert key v m) ≡ some w
    → P k w
after_insert P key v m new h k w e = elim (key-cases key k) [
  | inl same ↦
      let here : lookup k (insert key v m) ≡ some v =
        subst (λ j. lookup j (insert key v m) ≡ some v) same (lookup-insert_same key v m) in
      subst (P k) (some_inj v w (sym here ∙ e)) (subst (λ j. P j v) same new)
  | inr other ↦ h k w (sym (lookup-insert_other k key v m (λ q. other (sym q))) ∙ e)
]

-- What is left of a map was there before.
pub lookup-without :
    {A : Type 0} (key k : Text) (w : A) (m : Map Text A)
    → lookup k (without key m) ≡ some w
    → (k ≢ key) × (lookup k m ≡ some w)
lookup-without key k w m e = elim (key-cases k key) [
  | inl same ↦
      let out : not (text_eq k key) ≡ false = ap not ((text_eq_iff k key).1 same) in
      absurd (cc (lookup-keep_if_dropped k (λ j. not (text_eq j key)) m out, e))
  | inr other ↦
      let kept : not (text_eq k key) ≡ true = ap not (same-false k key other) in
      (other, sym (lookup-keep_if_kept k (λ j. not (text_eq j key)) m kept) ∙ e)
]

pub unused :
    (key : Text) (servers : Map Text SqlServer) (k : Text) (s : SqlServer)
    → any_uses key servers ≡ false
    → lookup k servers ≡ some s
    → s.credential_key ≢ key
unfolding lookup
unused key [] k s h e = absurd (cc e)
unused key ((j, t) ∷ servers) k s h e = elim (Bool-cases (text_eq j k)) [
  | inl hit ↦
      let same : t ≡ s =
        some_inj t s (sym (ap (λ c. if c then some t else lookup k servers) hit) ∙ e) in
      let first = or_left (text_eq t.credential_key key) (any_uses key servers) h in
      λ q. cc (first, (text_eq_iff t.credential_key key).1 (ap SqlServer.credential_key same ∙ q))
  | inr miss ↦
      unused key servers k s (or_right (text_eq t.credential_key key) (any_uses key servers) h)
        (sym (ap (λ c. if c then some t else lookup k servers) miss) ∙ e)
]

-- A server can be put into the file, under any key, if its credential is there.
pub put_server-IsLinked :
    (a : Connections) (key : Text) (s : SqlServer)
    → IsLinked a
    → HasCredential a s
    → IsLinked (record a { sql_servers = insert key s a.sql_servers })
put_server-IsLinked a key s (links, own) has =
    (after_insert (λ k t. HasCredential a t) key s a.sql_servers has links, own)

-- A credential can be put in under its own key.
pub put_credential-IsLinked :
    (a : Connections) (c : SqlCredential)
    → IsLinked a
    → IsLinked (record a { sql_credentials = insert c.credential_key c a.sql_credentials })
put_credential-IsLinked a c (links, own) = (
  λ k s e. elim (links k s e) [
    | inl blank ↦ inl blank
    | inr (d, known) ↦ elim (key-cases c.credential_key s.credential_key) [
      | inl same ↦ inr (
        c,
        subst (λ j. lookup j (insert c.credential_key c a.sql_credentials) ≡ some c) same
            (lookup-insert_same c.credential_key c a.sql_credentials),
      )
      | inr other ↦ inr (
        d,
        lookup-insert_other s.credential_key c.credential_key c a.sql_credentials
              (λ q. other (sym q))
            ∙ known,
      )
    ]
  ],
  after_insert (λ k d. d.credential_key ≡ k) c.credential_key c a.sql_credentials refl own,
)
