-- ===== src/FileApi/Disk.antt =====
-- The file system below internal/adapters/in/fileapi/server.go: what the handlers use of Go's `os`,
-- over an unknown state `F`. Beside the state stands a list of the paths that have been handed to
-- it, the first one first, which the theorems are about. Every call goes through one of the
-- functions below, which hands the path that it records to the call.
pub mod Hands
use gameserver_daemon.Common.{ℕ, String, Bool, Option, List, [], ◌∷◌, ◌++◌}
use gameserver_daemon.Errors.{GoError, Result}

pub record FileInfo : Type 0 where
  pub name : String
  pub is_dir : Bool
  pub bytes : ℕ
  pub mod_time : ℕ

-- `os.Stat`: the error is `IsNotExist`, or another one.
pub data Stat : Type 0 where
  found : FileInfo → Stat
  not_exist : GoError → Stat
  broken : GoError → Stat

-- An entry of `os.ReadDir`; `Info` may fail if the file has gone in the meantime.
pub record DirEntry : Type 0 where
  pub name : String
  pub is_dir : Bool
  pub info : Result FileInfo

pub record FileSystem (F : Type 0) : Type 0 where
  pub stat : String → F → Stat
  pub read_dir : String → F → Result (List DirEntry)
  pub mkdir_all : String → F → Option GoError × F
  pub create : String → F → Option GoError × F
  -- `io.Copy` into a file that has been created.
  pub write : Result String → String → F → Option GoError × F
  pub rename : String → String → F → Option GoError × F
  pub remove_all : String → F → Option GoError × F

pub record Disk (F : Type 0) : Type 0 where
  pub state : F
  pub touched : List String

module _ {F : Type 0} where
  abbrev pub touch : String → Disk F → Disk F
  touch p d = record d { touched = d.touched ++ p ∷ [] }

  -- A call that reads the file system at a path.
  abbrev pub look {ℓ} : {A : Type ℓ} → String → (String → F → A) → Disk F → A × Disk F
  look p query d = (query p d.state, touch p d)

  -- A call that changes the file system at a path.
  abbrev pub change {ℓ} : {A : Type ℓ} → String → (String → F → A × F) → Disk F → A × Disk F
  change p call d =
      let (r, s) = call p d.state in (r, record { state = s; touched = d.touched ++ p ∷ [] })

  -- A call that changes it at two.
  abbrev pub change_two :
      String
      → String
      → (String → String → F → Option GoError × F)
      → Disk F
      → Option GoError × Disk F
  change_two p q call d = change q (call p) (touch p d)
