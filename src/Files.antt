-- ===== src/Files.antt =====
-- What process_manager/ and ops/tests/generate_configs.py use of the file system: a path, its parts
-- between the slashes, is a directory, or has an entry that is no directory, or nothing. An
-- `OSError` is `os_error`; it leaves the disk as it was.
pub mod Made
use reliable_broadcast.Prelude.{
  ◌||◌, List, [], ◌∷◌, ◌++◌, contains, nat_eq, list_eq, if◌then◌else◌, Text, is_some,
}
use reliable_broadcast.Result.{Result, ok, raise, os_error}
use reliable_broadcast.Dict.{Dict, lookup, insert, remove}
use reliable_broadcast.Prelude.{Bool}

abbrev pub FilePath : Type 0
FilePath = List Text

-- The empty path, the root or the working directory, need not be listed to be searched.
pub record Disk (Entry : Type 0) : Type 0 where
  pub directories : List FilePath
  pub entries : Dict FilePath Entry

-- The directory of a path.
unfoldable pub parent : FilePath → FilePath
parent [] = []
parent (part ∷ []) = []
parent (part ∷ next ∷ parts) = part ∷ parent (next ∷ parts)

-- One more directory, unless it is there.
unfoldable pub with_directory : FilePath → List FilePath → List FilePath
with_directory path directories =
    if contains directories path then directories else directories ++ path ∷ []

module _ {Entry : Type 0} where
  -- `os.path.exists`, of a directory or a file
  unfoldable pub exists : FilePath → Disk Entry → Bool
  exists path disk = contains disk.directories path || is_some (lookup path disk.entries)

  -- `os.makedirs`: each directory on the way to the path. A file on the way makes it fail.
  unfoldable pub makedirs : FilePath → FilePath → Disk Entry → Result (Disk Entry)
  unfolding with_directory
  makedirs done [] disk = ok disk
  makedirs done (part ∷ rest) disk =
      let here = done ++ part ∷ [] in
      let more =
        makedirs here rest (record disk { directories = with_directory here disk.directories }) in
      if is_some (lookup here disk.entries) then raise os_error else more

  -- `if not os.path.exists(path): os.makedirs(path)`
  unfoldable pub create_dir : FilePath → Disk Entry → Result (Disk Entry)
  unfolding exists makedirs
  create_dir path disk = if exists path disk then ok disk else makedirs [] path disk

  -- `if os.path.exists(path): os.remove(path)`; a directory cannot be removed so.
  unfoldable pub remove_old : FilePath → Disk Entry → Result (Disk Entry)
  unfolding exists
  remove_old path disk =
      if contains disk.directories path
      then raise os_error
      else if exists path disk
      then ok (record disk { entries = remove path disk.entries })
      else ok disk

  -- `open(path, 'w')` and the writing, or `os.mkfifo` where no entry is left: it fails for a
  -- directory, and in a directory that is missing.
  unfoldable pub write : FilePath → Entry → Disk Entry → Result (Disk Entry)
  unfolding parent
  write path content disk =
      if contains disk.directories path
      then raise os_error
      else if contains disk.directories (parent path)
      then ok (record disk { entries = insert path content disk.entries })
      else raise os_error

  -- `except OSError as e: print(e)`
  unfoldable pub or_printed : Result (Disk Entry) → Disk Entry → Disk Entry
  or_printed (ok after) disk = after
  or_printed (raise e) disk = disk
