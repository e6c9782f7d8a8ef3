-- ===== src/Data/MemFolders/Names.antt =====
-- Which names `memFolders` knows after each operation.
use bmagent.Base.{
  ℕ, ◌≡◌, ◌≢◌, ◌<◌, ◌⊎◌, String, none, some, arith, if◌then◌else◌, str_eq, str_eq_iff, find,
  find-set_name, find-drop_name, AreDistinct, set_name-AreDistinct, Option-cases, inl, inr,
}
use bmagent.Data.MemFolder.{duplicate_id, not_found, new_mem_folder}
use bmagent.Data.MemFolders.{MemFolders, folder, missing, new, new_at, get, rename, delete}

-- Each name stands once, and each folder lies below the next address.
pub record IsValid (mf : MemFolders) : Type 0 where
  pub distinct : AreDistinct mf.folders
  pub allocated : (name : String) (f : ℕ) → find name mf.folders ≡ some f → f < mf.fresh

pub new-IsValid : (name : String) (mf : MemFolders) → IsValid mf → IsValid (new name mf).0
unfolding new
new-IsValid name mf v = elim (Option-cases (find name mf.folders)) [
  | inl e ↦
      rw (e, new_at)
        (record {
          distinct = set_name-AreDistinct name mf.fresh mf.folders v.distinct;
          allocated = λ other f h.
              ground (arith, find-set_name name other mf.fresh mf.folders, v.allocated other f);
        })
  | inr (f, e) ↦ rw (e, new_at) v
]

-- Where each folder lies below the next address, `New` gives an unused name an empty folder of its own, shared with no other name, and refuses a
-- name in use; every other name keeps its folder.
get-new :
    (name other : String) (mf : MemFolders)
    → IsValid mf
    → let (mf', found) = new name mf in
      ((get name mf ≡ missing not_found)
        × (found ≡ folder mf.fresh)
        × (get other mf' ≡ (if str_eq name other then folder mf.fresh else get other mf))
        × (mf'.heap mf.fresh ≡ some new_mem_folder)
        × (get other mf ≢ folder mf.fresh))
      ⊎ ((f : ℕ) × (get name mf ≡ folder f) × (found ≡ missing duplicate_id) × (mf' ≡ mf))
unfolding new get
get-new name other mf v = elim (Option-cases (find name mf.folders)) [
  | inl h ↦ inl (
    ground arith,
    ground arith,
    ground (arith, find-set_name name other mf.fresh mf.folders),
    ground arith,
    λ e. ground (arith, v.allocated other mf.fresh),
  )
  | inr (f, h) ↦ inr (f, ground arith, ground arith, ground arith)
]

-- `Rename` of a name in use gives the folder its new name and keeps the old one: afterwards both names lead to the
-- same folder, whatever stood under the new name before, and every other name keeps its folder.
get-rename :
    (name newname other : String) (mf : MemFolders) (f : ℕ)
    → get name mf ≡ folder f
    → let (mf', e) = rename name newname mf in
      (e ≡ none)
      × (get newname mf' ≡ folder f)
      × (get name mf' ≡ folder f)
      × (get other mf' ≡ (if str_eq newname other then folder f else get other mf))
unfolding rename get
get-rename name newname other mf f h = (
  ground arith,
  ground (arith, find-set_name newname newname f mf.folders, str_eq_iff newname newname),
  ground (arith, find-set_name newname name f mf.folders),
  ground (arith, find-set_name newname other f mf.folders),
)

-- `Delete` of a name in use forgets the name, and no other.
get-delete :
    (name other : String) (mf : MemFolders) (f : ℕ)
    → get name mf ≡ folder f
    → let (mf', e) = delete name mf in
      (e ≡ none) × (get other mf' ≡ (if str_eq name other then missing not_found else get other mf))
unfolding delete get
get-delete name other mf f h = (ground arith, ground (arith, find-drop_name name other mf.folders))
