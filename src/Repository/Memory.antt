-- ===== src/Repository/Memory.antt =====
-- internal/adapters/out/repository/memory/server_repository.go
use gameserver_daemon.Common.{String, ◌<>◌, Option, none, some, List, [], ◌∷◌, arith}
use gameserver_daemon.Common.Dict.{Dict, lookup, insert, lookup-insert}
use gameserver_daemon.Errors.{GoError, failure, Result, ok, err}
use gameserver_daemon.Ports.{ServerRecord}
use gameserver_daemon.Ports.Interfaces.{ServerRepository, IsLawful}

-- The map holds pointers, but nobody writes through them but `update_status`, under the lock.
abbrev pub Servers : Type 0
Servers = Dict ServerRecord

unfoldable pub save : ServerRecord → Servers → Option GoError × Servers
save r s = (none, insert r.id r s)

unfoldable pub find_by_id : String → Servers → Result ServerRecord
find_by_id i s = elim (lookup i s) [
  | none ↦ err (failure ("server not found: " <> i))
  | some r ↦ ok r
]

-- The write goes through the pointer that the map holds.
unfoldable pub update_status : String → String → Servers → Option GoError × Servers
update_status i status s = elim (lookup i s) [
  | none ↦ (some (failure ("server not found: " <> i)), s)
  | some r ↦ (none, insert i (record r { status = status }) s)
]

values : Servers → List ServerRecord
values [] = []
values ((k, r) ∷ s) = r ∷ values s

-- The values of the map, in some order.
unfoldable pub list_all : Servers → Result (List ServerRecord)
unfolding values
list_all s = ok (values s)

abbrev pub memory_repository : ServerRepository Servers
memory_repository = record {
  save = save;
  find_by_id = find_by_id;
  update_status = update_status;
  list_all = list_all;
}

-- The in-memory store keeps the promises of `ServerRepository`.
pub memory_repository-IsLawful : IsLawful memory_repository
unfolding save find_by_id update_status
memory_repository-IsLawful = record {
  find-save = λ r s i done. ground (arith, lookup-insert i r.id r s);
  find-update_status =
      λ k status s r i known. ground (arith, lookup-insert i k (record r { status = status }) s);
  update_status_missing = λ k status s {e} missing. ground arith;
}
