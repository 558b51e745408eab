-- ===== src/Tests/Persist.antt =====
-- A restart of a daemon with one SSH and one local session.
use agmux.Base.{pos, refl, [], some, lookup, insert, erase, All}
use agmux.Session.{get_name}
use agmux.Manager.{new_manager, set_default, allocate}
use agmux.Manager.Methods.{list, new_local}
use agmux.Persist.{StateCodec, collect_state, restore_state, stop}
use agmux.Persist.Restore.{ComesBack, Distinct, Named, restore_state-stop}
use agmux.Tests.Server.{running}

-- A file format for this one state.
abbrev codec : StateCodec
codec = record {
  marshal = λ states. [];
  unmarshal = λ bytes. some (collect_state (list running.manager));
}

running-Named : All (Named running.manager.heap) running.manager.sessions
unfolding set_default allocate insert erase new_local new_manager get_name lookup
running-Named = ((refl, λ h. cc h), ((refl, λ h. cc h), tt))

running-Distinct : Distinct running.manager.sessions
unfolding set_default allocate insert erase new_local new_manager lookup
running-Distinct = (refl, (refl, tt))

restore_state-stop_example :
    ComesBack "ann"
      (pos 9)
      running.manager.heap
      (lookup "prod" running.manager.sessions)
      "prod"
      (restore_state codec "ann" (pos 9) (stop codec running).1 new_manager).0
restore_state-stop_example =
    restore_state-stop codec running "ann" (pos 9) refl running-Named running-Distinct "prod"
