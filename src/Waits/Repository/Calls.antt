-- ===== src/Waits/Repository/Calls.antt =====
-- internal/dwaits/repository.go: a sequence of calls of the repository, and what it means for one server.
use isitsql.Common.{
  Bool, true, false, ◌&&◌, Option, none, some, List, [], ◌∷◌, ◌++◌, Text, text_eq, if◌then◌else◌,
}
use isitsql.Maps.{text_key}
use isitsql.Waits.Repository.{WaitList, Repository, write_history, write, delete, close}

pub data Call : Type 0 where
  write_call : Text → WaitList → Call
  history_call : Text → WaitList → Call
  delete_call : Text → Call
  close_call : Call

unfoldable pub call : Call → Repository → Option Repository
unfolding write write_history delete
call (write_call key w) r = write key w r
call (history_call key w) r = write_history key w r
call (delete_call key) r = some (delete key r)
call close_call r = some (close r)

unfoldable pub call_all : List Call → Repository → Option Repository
unfolding call
call_all [] r = some r
call_all (c ∷ cs) r = elim (call c r) [ some r' ↦ call_all cs r' | none ↦ none ]

-- What the repository means for one server: whether it is open, and the entries of the server since it was
-- last deleted
pub record Entries : Type 0 where
  pub is_open : Bool
  pub entries : List WaitList

abbrev pub step_entries : Text → Call → Entries → Entries
step_entries key (write_call k w) s = record s {
  entries = if s.is_open && text_eq k key then s.entries ++ (w ∷ []) else s.entries;
}
step_entries key (history_call k w) s = record s {
  entries = if text_eq k key then s.entries ++ (w ∷ []) else s.entries;
}
step_entries key (delete_call k) s = record s {
  entries = if s.is_open && text_eq key k then [] else s.entries;
}
step_entries key close_call s = record s { is_open = false }

abbrev pub entries_after : Text → List Call → Entries → Entries
entries_after key [] s = s
entries_after key (c ∷ cs) s = entries_after key cs (step_entries key c s)

-- What the repository means at the start
abbrev pub no_entries : Entries
no_entries = record { is_open = true; entries = [] }
