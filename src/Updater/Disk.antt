-- ===== src/Updater/Disk.antt =====
-- The files that the updater of src/updater.cpp moves, with the calls of std::filesystem on them. Any
-- of the calls may fail, and then it leaves the files as they are.
use torrent_builder.Common.{
  Bytes, List, ◌∷◌, Bool, true, false, Option, none, some, if◌then◌else◌, bytes_eq, has_value,
}

-- The contents of the file at each path.
abbrev pub Disk : Type 0
Disk = Bytes → Option Bytes

unfoldable pub put : Bytes → Option Bytes → Disk → Disk
put path contents disk p = if bytes_eq p path then contents else disk p

-- The files as they are, and as they were after each call before; the history is there for what is
-- stated of every moment, since the process may be killed at any.
pub record Files : Type 0 where
  pub disk : Disk
  pub history : List Disk

abbrev pub change : Disk → Files → Files
change disk files = record { disk = disk; history = files.disk ∷ files.history }

abbrev pub exists : Files → Bytes → Bool
exists files path = has_value (files.disk path)

-- `fs::rename`: it fails where there is no file, and replaces the file at the target. The first
-- argument says whether the system lets the call succeed.
unfoldable pub rename : Bool → Bytes → Bytes → Files → Option Files
unfolding put
rename allowed from to files = elim (files.disk from) [
  | none ↦ none
  | some contents ↦
      if allowed
      then some (change (put to (some contents) (put from none files.disk)) files)
      else none
]

-- `fs::remove`, where an exception is caught or an error code is ignored.
unfoldable pub remove : Bool → Bytes → Files → Files
unfolding put
remove allowed path files = if allowed then change (put path none files.disk) files else files

-- What `fs::copy_file` with `overwrite_existing` comes to: a whole copy, or an error, behind which
-- the target may hold anything.
pub data Copy : Type 0 where
  whole : Copy
  broken : Option Bytes → Copy

-- The files behind the call, and whether it succeeded.
unfoldable pub copy_file : Copy → Bytes → Bytes → Files → Files × Bool
unfolding put
copy_file outcome from to files = elim (files.disk from) [
  | none ↦ (files, false)
  | some contents ↦ elim outcome [
    | whole ↦ (change (put to (some contents) files.disk) files, true)
    | broken left ↦ (change (put to left files.disk) files, false)
  ]
]
