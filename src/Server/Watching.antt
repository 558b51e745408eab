-- ===== src/Server/Watching.antt =====
-- internal/server/server.go, MsgKill: the registry of sessions and that of the watched names.
use agmux.Base.{ℕ, String, ◌≡◌, Option, none, some, [], ◌∷◌, ◌++◌, if◌then◌else◌, lookup, str_eq}
use agmux.Manager.{Manager, resolve, not_found}
use agmux.Monitor.{Monitor}
use agmux.Server.{Server, plain_entry, success}
use agmux.Server.Handlers.{Reply, killed, failure, manager_error}

-- What a kill of `name` answers and leaves of the sessions and the audit log, when the resolved name
-- stands for the session `o`.
abbrev pub Kills : String → Server → Option ℕ → Server × Reply → Type 0
Kills name s none (s', r) =
    (r ≡ failure (manager_error not_found)) × (s'.manager ≡ s.manager) × (s'.audit ≡ s.audit)
Kills name s (some ref) (s', r) =
    (r ≡ killed)
    × ((k : String)
        → lookup k s'.manager.sessions
          ≡ (if str_eq (resolve name s.manager) k then none else lookup k s.manager.sessions))
    × (s'.audit ≡ s.audit ++ plain_entry name "kill" success ∷ [])
