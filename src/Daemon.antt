-- ===== src/Daemon.antt =====
-- cmd/kleffd/main.go: the handlers that the daemon registers, and the choice of the queue.
pub mod Start
pub mod Main
pub mod Chosen
pub mod Ready
use gameserver_daemon.Common.{
  ℕ, Option, none, some, [], ◌≡◌, ◌≢◌, refl, sym, subst, arith, ◌==◌, if◌then◌else◌, string_dec,
}
use gameserver_daemon.Common.Dict.{Dict, lookup, insert, dict_laws}
use gameserver_daemon.Jobs.{
  JobType, server_provision, server_start, server_stop, server_delete, server_restart, mod_install,
  mod_uninstall,
}
use gameserver_daemon.Dispatcher.{register}
use gameserver_daemon.Workers.Reports.Kinds.{ServerJob, provision, start, stop, restart, delete}

pub data Handler : Type 0 where
  server : ServerJob → Handler
  install uninstall : Handler

-- `NewDispatcher(q, 4)`
abbrev pub slots : ℕ
slots = 4

unfoldable pub handlers : Dict Handler
unfolding register
handlers = register mod_uninstall uninstall (
    register mod_install install (
      register server_restart (server restart) (
        register server_delete (server delete) (
          register server_stop (server stop) (
            register server_start (server start)
              (register server_provision (server provision) []))))))

-- The table that the registrations are meant to give.
unfoldable pub handler_of : JobType → Option Handler
handler_of type =
    if type == server_provision
    then some (server provision)
    else if type == server_start
    then some (server start)
    else if type == server_stop
    then some (server stop)
    else if type == server_restart
    then some (server restart)
    else if type == server_delete
    then some (server delete)
    else if type == mod_install
    then some install
    else if type == mod_uninstall
    then some uninstall
    else none

module _ (type : JobType) where
  abbrev Agrees : Type 0
  Agrees = lookup type handlers ≡ handler_of type

  at_literal : (k : JobType) → lookup k handlers ≡ handler_of k → type ≡ k → Agrees
  at_literal k h e = subst (λ t. lookup t handlers ≡ handler_of t) (sym e) h

  elsewhere :
      type ≢ server_provision
      → type ≢ server_start
      → type ≢ server_stop
      → type ≢ server_restart
      → type ≢ server_delete
      → type ≢ mod_install
      → type ≢ mod_uninstall
      → Agrees
  unfolding handlers handler_of
  elsewhere a b c d e f g = simp dict_laws (ground arith)

  -- Each of the seven job types has the handler that its name says, and no other type has any.
  pub lookup-handlers : lookup type handlers ≡ handler_of type
  unfolding handlers handler_of lookup insert string_dec
  lookup-handlers = elim (string_dec type server_provision) [
    | yes p ↦ at_literal server_provision refl p
    | no a ↦ elim (string_dec type server_start) [
      | yes p ↦ at_literal server_start refl p
      | no b ↦ elim (string_dec type server_stop) [
        | yes p ↦ at_literal server_stop refl p
        | no c ↦ elim (string_dec type server_restart) [
          | yes p ↦ at_literal server_restart refl p
          | no d ↦ elim (string_dec type server_delete) [
            | yes p ↦ at_literal server_delete refl p
            | no e ↦ elim (string_dec type mod_install) [
              | yes p ↦ at_literal mod_install refl p
              | no f ↦ elim (string_dec type mod_uninstall) [
                | yes p ↦ at_literal mod_uninstall refl p
                | no g ↦ elsewhere a b c d e f g
              ]
            ]
          ]
        ]
      ]
    ]
  ]
