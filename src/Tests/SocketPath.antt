-- ===== src/Tests/SocketPath.antt =====
-- The socket at concrete paths.
use agmux.Base.{◌≡◌, refl, some, none, true, false}
use agmux.SocketPath.{
  Stat, found, new_socket, validate, prepare, listen_and_chmod, remove_if_owned_socket,
  remove_checked, check_owner, remove,
}
use agmux.SocketPath.Safety.{MayReplace, validate-prepare}

-- A stale socket of user 1000.
abbrev stale : Stat
stale = found (record { is_socket = true; is_dir = false; mode = 420; owner = some 1000 })

replaced : prepare 1000 true true true stale ≡ (new_socket 1000, true)
unfolding prepare listen_and_chmod remove_if_owned_socket remove_checked check_owner remove
replaced = refl

validate-prepare_example : MayReplace 1000 stale × (validate 1000 (new_socket 1000) ≡ none)
validate-prepare_example = validate-prepare 1000 true true true stale (new_socket 1000) replaced
