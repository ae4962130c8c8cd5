-- ===== src/Server/Session.antt =====
-- server/session.go: the sessions that run for the server, by id.
pub mod Laws
use digcore.Base.{
  ℕ, zero, suc, ◌+◌, Bool, true, false, String, Option, none, some, List, [], ◌∷◌, ◌++◌, length,
}
use digcore.Base.Dict
use digcore.Base.Dict.{Dict}

-- remoteSession; a cancel function is known by a number, and nil is `none`.
pub record RemoteSession : Type 0 where
  pub session_id : String
  pub session_type : String
  pub cancel : Option ℕ

-- sessionManager; `cancelled` lists the cancel functions that were called.
pub record SessionManager : Type 0 where
  pub sessions : Dict RemoteSession
  pub cancelled : List ℕ

-- newSessionManager
abbrev pub new_session_manager : SessionManager
new_session_manager = record { sessions = []; cancelled = [] }

-- The call of a cancel function that is not nil.
unfoldable pub call : Option ℕ → List ℕ → List ℕ
call none called = called
call (some c) called = called ++ (c ∷ [])

-- add
unfoldable pub add : SessionManager → RemoteSession → SessionManager × Bool
unfolding Dict.get Dict.put
add m s = elim (Dict.get m.sessions s.session_id) [
  | some old ↦ (m, false)
  | none ↦ (record m { sessions = Dict.put m.sessions s.session_id s }, true)
]

-- remove
unfoldable pub remove : SessionManager → String → SessionManager
unfolding Dict.get Dict.del call
remove m session_id = elim (Dict.get m.sessions session_id) [
  | none ↦ m
  | some s ↦ record m {
    sessions = Dict.del m.sessions session_id;
    cancelled = call s.cancel m.cancelled;
  }
]

-- get
unfoldable pub get : SessionManager → String → Option RemoteSession
unfolding Dict.get
get m session_id = Dict.get m.sessions session_id

-- count
abbrev pub count : SessionManager → ℕ
count m = length m.sessions

-- The loop of cancelAll.
unfoldable pub cancel_loop : List ℕ → Dict RemoteSession → List ℕ
unfolding call
cancel_loop called [] = called
cancel_loop called ((id, s) ∷ snapshot) = cancel_loop (call s.cancel called) snapshot

-- cancelAll
unfoldable pub cancel_all : SessionManager → SessionManager
unfolding cancel_loop
cancel_all m = record { sessions = []; cancelled = cancel_loop m.cancelled m.sessions }
