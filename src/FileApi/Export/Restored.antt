-- ===== src/FileApi/Export/Restored.antt =====
-- internal/adapters/in/fileapi/server.go: an exported archive, unpacked again.
use Prim.Native.String.{String, ◌++◌ as ◌<>◌}
use Prim.Native.Char.{Char}
use text.Mathlib.TextLemmas.{append_assoc as text_assoc}
use gameserver_daemon.Common.{true, false, ◌≡◌, All, none, List, [], ◌∷◌, ◌++◌}
use mathlib.Core.List.{append_assoc}
use gameserver_daemon.Common.Paths.{split}
use gameserver_daemon.Common.Paths.Laws.{IsEntry}
use gameserver_daemon.Errors.{Result, ok}
use gameserver_daemon.FileApi.Disk.{FileSystem, Disk}
use gameserver_daemon.FileApi.Handlers.{Response, success, done}
use gameserver_daemon.FileApi.Archive.{ZipEntry, made_dir, write_entry, dir_of}
use gameserver_daemon.FileApi.Export.{Walked, FileRead, Zip, is_skipped}

abbrev pub whole : String → FileRead
whole text = record { text = text; breaks = none }

module _ {F : Type 0} (open_file : String → F → Result FileRead) (target : String) (s : F) where
  -- A walk has these files, by their names below its root and their texts: each can be opened and read
  -- to its end, and what else the walk has is a directory or could not be looked at.
  pub data Lists : List Walked → Zip → Type 0 where
    nothing : Lists [] []
    skips :
        {w : Walked} {ws : List Walked} {z : Zip}
        → is_skipped w ≡ true
        → Lists ws z
        → Lists (w ∷ ws) z
    holds :
        {w : Walked} {ws : List Walked} {z : Zip} {x text : String}
        → is_skipped w ≡ false
        → w.path ≡ target <> ("/" <> x)
        → All IsEntry (split x)
        → open_file w.path s ≡ ok (whole text)
        → Lists ws z
        → Lists (w ∷ ws) ((x, text) ∷ z)

abbrev pub entries_of : Zip → List ZipEntry
entries_of [] = []
entries_of ((x, text) ∷ z) =
    record { name = x; is_dir = false; opened = ok (ok text) } ∷ entries_of z

module _ {F : Type 0} (fs : FileSystem F) where
  -- Each file is written at its place below the directory, its parent directory being made first.
  unfoldable pub write_back : String → Zip → Disk F → Response × Disk F
  write_back target [] d = (success done, d)
  write_back target ((x, text) ∷ z) d =
      let path = target <> ("/" <> x) in
      write_entry fs path (ok (ok text)) (write_back target z) (made_dir fs (dir_of path) d)
