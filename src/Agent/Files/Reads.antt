-- ===== src/Agent/Files/Reads.antt =====
-- dynamic-config-agent/src/render.rs and sidecar.rs: reads after writes.
use dynamic_config_k8s.Prelude.{
  ℕ, String, ◌≡◌, refl, ◌↔◌, inl, inr, true, false, Option, none, some, List, [], ◌∷◌, arith,
  if◌then◌else◌, Bool-cases, Option-cases, ◌==◌, eq_iff, eq_refl, All,
}
use dynamic_config_k8s.Agent.Files.{
  FilePath, Published, Files, find_file, read, write, holds, drifted, same_set,
}

pub read-write :
    (path other : FilePath) (content : String) (mode : Option ℕ) (files : Files)
    → read other (write path content mode files)
      ≡ (if path == other then some content else read other files)
unfolding read write find_file
read-write path other content mode [] = ground arith
read-write path other content mode ((name, file) ∷ more) = ground (
  arith,
  read-write path other content mode more,
  eq_iff path other,
  eq_iff name path,
  eq_iff name other,
)

pub read-write-same :
    (path : FilePath) (content : String) (mode : Option ℕ) (files : Files)
    → read path (write path content mode files) ≡ some content
read-write-same path content mode files =
    ground (arith, read-write path path content mode files, eq_refl path)

pub read-write-other :
    (path other : FilePath) (content : String) (mode : Option ℕ) (files : Files)
    → (path == other) ≡ false
    → read other (write path content mode files) ≡ read other files
read-write-other path other content mode files h =
    ground (arith, read-write path other content mode files)

holds-eq-true_iff :
    (files : Files) (file : Published)
    → (holds files file ≡ true) ↔ (read file.out files ≡ some file.document)
unfolding holds
holds-eq-true_iff files file = elim (Option-cases (read file.out files)) [
  | inl e ↦ rw e (λ h. cc, λ h. cc)
  | inr (text, e) ↦ ground (arith, eq_iff text file.document)
]

-- the set is on the disk, file for file
pub drifted-none_iff :
    (files : Files) (set : List Published)
    → (drifted files set ≡ none) ↔ All (λ file. read file.out files ≡ some file.document) set
unfolding drifted
drifted-none_iff files [] = (λ _. tt, λ _. refl)
drifted-none_iff files (file ∷ more) =
    let here = holds-eq-true_iff files file in
    let later = drifted-none_iff files more in
    elim (Bool-cases (holds files file)) [
      | inl held ↦ rw held (λ h. (here.0 held, later.0 h), λ h. later.1 h.1)
      | inr lost ↦ rw lost (λ h. cc, λ h. absurd (cc (here.1 h.0)))
    ]

pub same_set_refl : (set : List Published) → same_set set set ≡ true
unfolding same_set
same_set_refl [] = refl
same_set_refl (file ∷ more) =
    ground (arith, same_set_refl more, eq_refl file.out, eq_refl file.document)
