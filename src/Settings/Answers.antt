-- ===== src/Settings/Answers.antt =====
-- internal/settings: what an operation that succeeds has done.
use isitsql.Common.{
  ◌≡◌, refl, sym, ap, ◌⊎◌, inl, inr, Bool, true, false, Option, none, some, Text, if◌then◌else◌,
}
use isitsql.Settings.{
  SqlServer, Connections, Error, read_failed, save_failed, Answer, failed, done, ◌>>=◌, or_fail,
  Faults, read, save, unless_blank, crypt_server,
}

abbrev pub value_or : {A : Type 0} → A → Answer A → A
value_or d (failed e) = d
value_or d (done a) = a

pub done_inj : {A : Type 0} (a b : A) → done a ≡ done b → a ≡ b
done_inj a b h = ap (value_or a) h

pub bind-done :
    {A B : Type 0} (x : Answer A) (f : A → Answer B) (b : B)
    → (x >>= f) ≡ done b
    → (a : A) × (x ≡ done a) × (f a ≡ done b)
bind-done (failed e) f b h = absurd (cc h)
bind-done (done a) f b h = (a, refl, h)

pub or_fail-done :
    {A : Type 0} (e : Error) (o : Option A) (a : A) → or_fail e o ≡ done a → o ≡ some a
or_fail-done e none a h = absurd (cc h)
or_fail-done e (some b) a h = ap some (done_inj b a h)

-- Behind a guard that fails
pub guard-done :
    {A : Type 0} (c : Bool) (e : Error) (x : Answer A) (a : A)
    → (if c then failed e else x) ≡ done a
    → (c ≡ false) × (x ≡ done a)
guard-done true e x a h = absurd (cc h)
guard-done false e x a h = (refl, h)

pub read-done : (f : Faults) (a b : Connections) → read f a ≡ done b → a ≡ b
read-done f a b h = done_inj a b (guard-done f.read_fails read_failed (done a) b h).1

pub save-done : (f : Faults) (a b : Connections) → save f a ≡ done b → a ≡ b
save-done f a b h = done_inj a b (guard-done f.save_fails save_failed (done a) b h).1

-- What an operation does with a key that is found, or with one that is not
pub found-done :
    {A B : Type 0} (o : Option A) (x : Answer B) (g : A → Answer B) (b : B)
    → elim o [ none ↦ x | some v ↦ g v ] ≡ done b
    → (x ≡ done b) ⊎ ((v : A) × (o ≡ some v) × (g v ≡ done b))
found-done none x g b h = inl h
found-done (some v) x g b h = inr (v, refl, h)

-- Encrypting leaves all but the two texts.
pub crypt_server-credential_key :
    (f : Text → Option Text) (s s' : SqlServer)
    → crypt_server f s ≡ done s'
    → s'.credential_key ≡ s.credential_key
crypt_server-credential_key f s s' h =
    let (p, e, rest) = bind-done (unless_blank f s.password) _ s' h in
    let (u, e', last) = bind-done (unless_blank f s.custom_connection_string) _ s' rest in
    ap SqlServer.credential_key
      (sym (done_inj (record s { password = p; custom_connection_string = u }) s' last))
