-- ===== src/Settings/Calls.antt =====
-- internal/settings: a sequence of operations on the file.
use isitsql.Common.{◌≡◌, refl, Option, some, List, [], ◌∷◌, Text}
use isitsql.Maps.{lookup, text_key}
use isitsql.Settings.{
  SqlServer, SqlCredential, Connections, new_connections, Answer, failed, done, Faults,
  configure_connection, add_sql_server, save_sql_server, delete_sql_server, add_sql_credential,
  save_sql_credential, delete_sql_credential,
}
use isitsql.Settings.Links.{HasCredential, IsLinked}
use isitsql.Settings.Operations.{
  add_sql_server-IsLinked, save_sql_server-IsLinked, add_sql_credential-IsLinked,
  save_sql_credential-IsLinked, delete_sql_server-IsLinked, delete_sql_credential-IsLinked,
}

pub data Call : Type 0 where
  add_server : Faults → Text → SqlServer → Call
  save_server : Faults → Text → SqlServer → Call
  delete_server : Faults → Text → Call
  add_credential : Faults → Text → Text → Text → Text → Call
  save_credential : Faults → SqlCredential → Call
  delete_credential : Faults → Text → Call

-- The file after an operation: as it was, if there is an error.
abbrev pub file_of : Connections → Answer Connections → Connections
file_of a (failed e) = a
file_of a (done a') = a'

abbrev pub file_of_pair : Connections → Answer (Text × Connections) → Connections
file_of_pair a (failed e) = a
file_of_pair a (done (key, a')) = a'

file_of-holds :
    (P : Connections → Type 0) (a : Connections) (x : Answer Connections)
    → P a
    → ((b : Connections) → x ≡ done b → P b)
    → P (file_of a x)
file_of-holds P a (failed e) p h = p
file_of-holds P a (done b) p h = h b refl

file_of_pair-holds :
    (P : Connections → Type 0) (a : Connections) (x : Answer (Text × Connections))
    → P a
    → ((k : Text) (b : Connections) → x ≡ done (k, b) → P b)
    → P (file_of_pair a x)
file_of_pair-holds P a (failed e) p h = p
file_of_pair-holds P a (done (k, b)) p h = h k b refl

module _ (encrypt decrypt : Text → Option Text) where
  unfoldable pub call : Call → Connections → Connections
  unfolding add_sql_server save_sql_server delete_sql_server add_sql_credential save_sql_credential
      delete_sql_credential
  call (add_server f key s) a = file_of_pair a (add_sql_server encrypt decrypt f key s a)
  call (save_server f key s) a = file_of a (save_sql_server encrypt decrypt f key s a)
  call (delete_server f key) a = file_of a (delete_sql_server f key a)
  call (add_credential f key name login password) a =
      file_of_pair a (add_sql_credential encrypt decrypt f key name login password a)
  call (save_credential f c) a = file_of a (save_sql_credential encrypt decrypt f c a)
  call (delete_credential f key) a = file_of a (delete_sql_credential f key a)

  unfoldable pub call_all : List Call → Connections → Connections
  unfolding call
  call_all [] a = a
  call_all (c ∷ calls) a = call_all calls (call c a)

  -- A server that is saved has no credential or one of the file.
  abbrev pub IsAllowed : Call → Connections → Type 0
  IsAllowed (save_server f key s) a =
      (c : SqlServer) → configure_connection s ≡ some c → HasCredential a c
  IsAllowed (add_server f key s) a = Unit
  IsAllowed (delete_server f key) a = Unit
  IsAllowed (add_credential f key name login password) a = Unit
  IsAllowed (save_credential f c) a = Unit
  IsAllowed (delete_credential f key) a = Unit

  abbrev pub AreAllowed : List Call → Connections → Type 0
  AreAllowed [] a = Unit
  AreAllowed (c ∷ calls) a = IsAllowed c a × AreAllowed calls (call c a)

  call-IsLinked : (c : Call) (a : Connections) → IsAllowed c a → IsLinked a → IsLinked (call c a)
  unfolding call
  call-IsLinked (add_server f key s) a ok h =
      file_of_pair-holds IsLinked a _ h
        (λ k b e. add_sql_server-IsLinked encrypt decrypt f key s a b k h e)
  call-IsLinked (save_server f key s) a ok h =
      file_of-holds IsLinked a _ h
        (λ b e. save_sql_server-IsLinked encrypt decrypt f key s a b h ok e)
  call-IsLinked (delete_server f key) a ok h =
      file_of-holds IsLinked a _ h (λ b e. delete_sql_server-IsLinked f key a b h e)
  call-IsLinked (add_credential f key name login password) a ok h =
      file_of_pair-holds IsLinked a _ h
        (λ k b e. add_sql_credential-IsLinked encrypt decrypt f key name login password k a b h e)
  call-IsLinked (save_credential f c) a ok h =
      file_of-holds IsLinked a _ h (λ b e. save_sql_credential-IsLinked encrypt decrypt f c a b h e)
  call-IsLinked (delete_credential f key) a ok h =
      file_of-holds IsLinked a _ h (λ b e. delete_sql_credential-IsLinked f key a b h e)

  call_all-IsLinked_from :
      (calls : List Call) (a : Connections)
      → AreAllowed calls a
      → IsLinked a
      → IsLinked (call_all calls a)
  unfolding call_all
  call_all-IsLinked_from [] a ok h = h
  call_all-IsLinked_from (c ∷ calls) a (ok, oks) h =
      call_all-IsLinked_from calls (call c a) oks (call-IsLinked c a ok h)

  -- Over any operations on a new file, whatever of them fails, where each SaveSQLServer is given a server whose
  -- credential, if configureConnection leaves it one, is in the file: each server of the file has no credential
  -- or one that is in the file, and each credential stands under its own key.
  pub call_all-IsLinked :
      (calls : List Call)
      → AreAllowed calls new_connections
      → IsLinked (call_all calls new_connections)
  unfolding lookup
  call_all-IsLinked calls ok =
      call_all-IsLinked_from calls new_connections ok
        (λ k s e. absurd (cc e), λ k c e. absurd (cc e))
