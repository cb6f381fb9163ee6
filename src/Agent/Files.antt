-- ===== src/Agent/Files.antt =====
-- dynamic-config-agent/src/sidecar.rs, `unchanged` and `drifted`, and the writes of render.rs: the files
-- of the pod's volume, as a list of paths with a content and the permissions it landed with.
pub mod Reads
use dynamic_config_k8s.Prelude.{
  ℕ, String, Bool, true, false, ◌&&◌, Option, none, some, List, [], ◌∷◌, if◌then◌else◌, ◌==◌,
}

abbrev pub FilePath : Type 0
FilePath = String

pub record Published : Type 0 where
  pub out : FilePath
  pub document : String
  pub file_mode : Option ℕ

abbrev pub File : Type 0
File = String × Option ℕ

abbrev pub Files : Type 0
Files = List (FilePath × File)

unfoldable pub find_file : FilePath → Files → Option File
find_file path [] = none
find_file path ((name, file) ∷ more) =
    let later = find_file path more in if name == path then some file else later

-- `std::fs::read_to_string(path).ok()`
unfoldable pub read : FilePath → Files → Option String
unfolding find_file
read path files = elim (find_file path files) [ none ↦ none | some file ↦ some file.0 ]

-- a write that succeeds: the rename puts the whole file in place, and the scratch file beside it, which
-- was renamed, is gone
unfoldable pub write : FilePath → String → Option ℕ → Files → Files
write path content mode [] = (path, (content, mode)) ∷ []
write path content mode ((name, file) ∷ more) =
    let later = write path content mode more in
    if name == path then (path, (content, mode)) ∷ more else (name, file) ∷ later

unfoldable pub holds : Files → Published → Bool
unfolding read
holds files file = elim (read file.out files) [ none ↦ false | some text ↦ text == file.document ]

unfoldable pub drifted : Files → List Published → Option FilePath
unfolding holds
drifted files [] = none
drifted files (file ∷ more) =
    let later = drifted files more in if holds files file then later else some file.out

abbrev pub same_file : Published → Published → Bool
same_file held fresh = held.out == fresh.out && held.document == fresh.document

-- equal lengths and `iter().zip().all(…)`
unfoldable pub same_set : List Published → List Published → Bool
same_set [] [] = true
same_set (held ∷ more) (fresh ∷ later) = same_file held fresh && same_set more later
same_set [] (fresh ∷ later) = false
same_set (held ∷ more) [] = false

unfoldable pub unchanged : Option (List Published) → List Published → Bool
unfolding same_set
unchanged none fresh = false
unchanged (some held) fresh = same_set held fresh
