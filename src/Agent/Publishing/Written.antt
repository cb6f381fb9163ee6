-- ===== src/Agent/Publishing/Written.antt =====
-- dynamic-config-agent/src/sidecar.rs, `publish`: what is on the disk afterwards.
use dynamic_config_k8s.Prelude.{
  suc, String, ◌≡◌, refl, sym, ap, ◌∙◌, subst, inl, inr, Bool, true, not, Option, none, some, List,
  [], ◌∷◌, arith, if◌then◌else◌, Bool-cases, ◌==◌, all, All,
}
use dynamic_config_k8s.Agent.Files.{FilePath, Published, read, drifted}
use dynamic_config_k8s.Agent.Files.Reads.{read-write-same, read-write-other, drifted-none_iff}
use dynamic_config_k8s.Agent.Metrics.{rendered, generation, Revision}
use dynamic_config_k8s.Agent.Publishing.{
  acknowledge_first, counting, Io, Output, World, keep_previous, write_file, write_all, describe,
  finish, publish,
}

-- no file of the set goes to the path
abbrev pub avoids : FilePath → List Published → Bool
avoids path set = all (λ file. not (file.out == path)) set

-- no two files of a set go to the same path
abbrev pub AreApart : List Published → Type 0
AreApart [] = Unit
AreApart (file ∷ more) = (avoids file.out more ≡ true) × AreApart more

files-keep_previous :
    (io : Io) (spec : Output) (path : FilePath) (w : World)
    → (keep_previous io spec path w).files ≡ w.files
unfolding keep_previous
files-keep_previous io spec path w = ground arith

read-write_file :
    (file : Published) (w : World) → read file.out (write_file file w).files ≡ some file.document
unfolding write_file
read-write_file file w = read-write-same file.out file.document file.file_mode w.files

-- a write touches no path outside the set, also when it stops half-way
pub read-write_all :
    (io : Io) (spec : Output) (path : FilePath) (set : List Published) (w : World)
    → avoids path set ≡ true
    → read path (write_all io spec set w).0.files ≡ read path w.files
unfolding write_all write_file
read-write_all io spec path [] w h = refl
read-write_all io spec path (file ∷ more) w h =
    let w' = keep_previous io spec file.out w in
    let kept = files-keep_previous io spec file.out w in
    let later = read-write_all io spec path more (write_file file w') (ground arith) in
    let here =
      read-write-other file.out path file.document file.file_mode w'.files (ground arith) in
    ground (arith, kept, later, here)

write_all-on_disk :
    (io : Io) (spec : Output) (set : List Published) (w : World)
    → AreApart set
    → (write_all io spec set w).1 ≡ true
    → All (λ file. read file.out (write_all io spec set w).0.files ≡ some file.document) set
unfolding write_all
write_all-on_disk io spec [] w apart h = tt
write_all-on_disk io spec (file ∷ more) w apart h = elim (Bool-cases (io.writes file.out)) [
  | inl works ↦
      let w' = write_file file (keep_previous io spec file.out w) in
      let same : write_all io spec (file ∷ more) w ≡ write_all io spec more w' = ground arith in
      subst (λ r. All (λ f. read f.out r.0.files ≡ some f.document) (file ∷ more)) (sym same)
        (
          read-write_all io spec file.out more w' apart.0
              ∙ read-write_file file (keep_previous io spec file.out w),
          write_all-on_disk io spec more w' apart.1 (rw works at h),
        )
  | inr fails ↦ cc (rw fails at h)
]

write_all-written :
    (io : Io) (spec : Output) (set : List Published) (w : World)
    → All (λ file. io.writes file.out ≡ true) set
    → (write_all io spec set w).1 ≡ true
unfolding write_all
write_all-written io spec [] w works = refl
write_all-written io spec (file ∷ more) w works = ground (
  arith,
  write_all-written io spec more (write_file file (keep_previous io spec file.out w)) works.1,
  works.0,
)

files-describe :
    (digest : String → String) (io : Io) (revision : Option Revision) (set : List Published)
    (w : World)
    → (describe digest io revision set w).files ≡ w.files
unfolding describe
files-describe digest io revision [] w = refl
files-describe digest io revision (file ∷ more) w =
    files-describe digest io revision more _ ∙ ground arith

pub files-finish :
    (digest : String → String) (io : Io) (spec : Output) (set : List Published)
    (revision : Option Revision) (w : World)
    → (finish digest io spec set revision w).files ≡ w.files
unfolding finish
files-finish digest io spec set revision w =
    let counted =
      counting (λ m. acknowledge_first digest set (generation revision (rendered io.now m))) w in
    let told : World =
      if spec.notifies then record counted { calls = suc counted.calls } else counted in
    ground (arith, files-describe digest io revision set told)

files-publish :
    (digest : String → String) (io : Io) (spec : Output) (set : List Published)
    (revision : Option Revision) (w : World)
    → ((publish digest io spec set revision w).0.files ≡ (write_all io spec set w).0.files)
      × ((publish digest io spec set revision w).1 ≡ (write_all io spec set w).1)
unfolding publish
files-publish digest io spec set revision w =
    ground (arith, files-finish digest io spec set revision (write_all io spec set w).0)

-- A set that is published, its files apart from each other, is what stands on the disk: a check for
-- drift right after it finds none.
pub drifted-publish :
    (digest : String → String) (io : Io) (spec : Output) (set : List Published)
    (revision : Option Revision) (w : World)
    → AreApart set
    → (publish digest io spec set revision w).1 ≡ true
    → drifted (publish digest io spec set revision w).0.files set ≡ none
drifted-publish digest io spec set revision w apart h =
    let (files, written) = files-publish digest io spec set revision w in
    ap (λ f. drifted f set) files
    ∙ (drifted-none_iff (write_all io spec set w).0.files set).1
        (write_all-on_disk io spec set w apart (sym written ∙ h))

-- Publishing touches no file outside the set, whether it succeeds or stops half-way.
pub read-publish :
    (digest : String → String) (io : Io) (spec : Output) (path : FilePath) (set : List Published)
    (revision : Option Revision) (w : World)
    → avoids path set ≡ true
    → read path (publish digest io spec set revision w).0.files ≡ read path w.files
read-publish digest io spec path set revision w apart =
    ap (read path) (files-publish digest io spec set revision w).0
    ∙ read-write_all io spec path set w apart

-- a set whose every write works is written
pub publish-written :
    (digest : String → String) (io : Io) (spec : Output) (set : List Published)
    (revision : Option Revision) (w : World)
    → All (λ file. io.writes file.out ≡ true) set
    → (publish digest io spec set revision w).1 ≡ true
publish-written digest io spec set revision w works =
    (files-publish digest io spec set revision w).1 ∙ write_all-written io spec set w works
