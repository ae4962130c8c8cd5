-- ===== src/Server/Reconnect.antt =====
-- server/conn.go: the waits between connections, of RunForever and nextReconnectState. Durations are in
-- nanoseconds.
pub mod Laws
use digcore.Base.{
  ℕ, ◌+◌, ◌*◌, Bool, true, false, List, [], ◌∷◌, Option, none, some, ltb, if◌then◌else◌,
}
use digcore.Base.Int.{ℤ, pos, negsuc, second}

-- What Run returns, as errors.As and errors.Is tell it apart: nil, a disconnectError with its seconds,
-- errAuthFailed, a reconnectError with its flag, and any other error.
pub data RunError : Type 0 where
  no_error : RunError
  disconnect : ℤ → RunError
  auth_failed : RunError
  reconnect : Bool → RunError
  other : RunError

-- clampBackoff
unfoldable pub clamp_backoff : ℕ → ℕ → ℕ → ℕ
clamp_backoff d min max = if ltb d min then min else if ltb max d then max else d

-- A server's wait in seconds, at least `normal_min`.
abbrev pub server_wait : ℤ → ℕ → ℕ
server_wait (pos n) normal_min = if ltb (n * second) normal_min then normal_min else n * second
server_wait (negsuc n) normal_min = normal_min

-- The end of nextReconnectState: the wait, and the backoff after it.
abbrev pub doubled : ℕ → ℕ → ℕ → ℕ × ℕ
doubled backoff min max = (backoff, clamp_backoff (backoff * 2) min max)

-- nextReconnectState, without the function that logs
unfoldable pub next_reconnect_state : RunError → ℕ → ℕ → ℕ → ℕ → ℕ → ℕ × ℕ
unfolding clamp_backoff
next_reconnect_state no_error backoff normal_min normal_max auth_min auth_max = (0, backoff)
next_reconnect_state (disconnect seconds) backoff normal_min normal_max auth_min auth_max =
    (server_wait seconds normal_min, normal_min)
next_reconnect_state auth_failed backoff normal_min normal_max auth_min auth_max =
    doubled (if ltb backoff auth_min then auth_min else backoff) auth_min auth_max
next_reconnect_state (reconnect reset) backoff normal_min normal_max auth_min auth_max =
    doubled (if reset then normal_min else backoff) normal_min normal_max
next_reconnect_state other backoff normal_min normal_max auth_min auth_max =
    doubled backoff normal_min normal_max

abbrev pub normal_min : ℕ
normal_min = 1 * second

abbrev pub normal_max : ℕ
normal_max = 300 * second

abbrev pub auth_min : ℕ
auth_min = 60 * second

abbrev pub auth_max : ℕ
auth_max = 1800 * second

-- The loop of RunForever over the errors of its connections: the waits, before jitter.
unfoldable pub waits_from : ℕ → List RunError → List ℕ
unfolding next_reconnect_state
waits_from backoff [] = []
waits_from backoff (e ∷ es) =
    let (wait, next) = next_reconnect_state e backoff normal_min normal_max auth_min auth_max in
    wait ∷ waits_from next es

-- RunForever
unfoldable pub run_forever : List RunError → List ℕ
unfolding waits_from
run_forever es = waits_from normal_min es
