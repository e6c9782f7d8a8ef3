-- ===== src/Data/MemFolders.antt =====
-- store/data/folder.go: `memFolders`, named folders in memory. The map holds pointers: a folder is
-- an address, and `heap` holds what stands there.
pub mod Names
mod Tests
use bmagent.Base.{
  ℕ, ◌+◌, String, Option, none, some, List, [], ◌∷◌, IdMap, empty_map, put, find, set_name,
  drop_name, keys,
}
use bmagent.Data.MemFolder.{Error, duplicate_id, not_found, MemFolder, new_mem_folder}

pub record MemFolders : Type 0 where
  pub folders : List (String × ℕ)
  pub heap : IdMap MemFolder
  pub fresh : ℕ

pub new_mem_folders : MemFolders
new_mem_folders = record { folders = []; heap = empty_map; fresh = 0 }

-- A method that returns a folder returns its address, or an error.
pub data Found : Type 0 where
  folder : ℕ → Found
  missing : Error → Found

pub new_at : String → Option ℕ → MemFolders → MemFolders × Found
new_at name (some _) mf = (mf, missing duplicate_id)
new_at name none mf = (
  record {
    folders = set_name name mf.fresh mf.folders;
    heap = put mf.fresh new_mem_folder mf.heap;
    fresh = mf.fresh + 1;
  },
  folder mf.fresh,
)

pub new : String → MemFolders → MemFolders × Found
unfolding new_at
new name mf = new_at name (find name mf.folders) mf

pub get : String → MemFolders → Found
get name mf = elim (find name mf.folders) [ none ↦ missing not_found | some f ↦ folder f ]

pub rename : String → String → MemFolders → MemFolders × Option Error
rename name newname mf = elim (find name mf.folders) [
  | none ↦ (mf, some not_found)
  | some f ↦ (record mf { folders = set_name newname f mf.folders }, none)
]

pub delete : String → MemFolders → MemFolders × Option Error
delete name mf = elim (find name mf.folders) [
  | none ↦ (mf, some not_found)
  | some _ ↦ (record mf { folders = drop_name name mf.folders }, none)
]

-- In the order in which `range` visits the map.
pub names : MemFolders → List String
names mf = keys mf.folders
