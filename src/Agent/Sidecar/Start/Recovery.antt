-- ===== src/Agent/Sidecar/Start/Recovery.antt =====
-- dynamic-config-agent/src/sidecar.rs: what an agent serves that has just started.
use Prim.Native.String.{[] as nil_text, ◌∷◌ as cons_text}
use dynamic_config_k8s.Prelude.{
  String, ◌≡◌, refl, sym, ap, ◌∙◌, subst, inl, inr, Bool, true, false, Option, none, some, List, [],
  ◌∷◌, arith, Bool-cases, ◌==◌, eq_iff, All, Result, ok, ensure, >>=-eq-ok,
}
use dynamic_config_k8s.Prelude.Texts.{empty_text, is_none, is_some}
use dynamic_config_k8s.Prelude.Yields.{ok-injective}
use dynamic_config_k8s.Agent.Files.{FilePath, Published, Files, read, write, drifted}
use dynamic_config_k8s.Agent.Files.Reads.{read-write, read-write-same}
use dynamic_config_k8s.Agent.Publishing.{Io, World, publish}
use dynamic_config_k8s.Agent.Publishing.Written.{AreApart, drifted-publish}
use dynamic_config_k8s.Agent.Sidecar.{
  Lease, Fetched, Loop, Spec, Target, fetched, best_effort, not_written,
}
use dynamic_config_k8s.Agent.Sidecar.Start.{
  contents, text_or_blank, ensure_file, ensure_files, Recovered, recovered, begin, start,
  held_lease, begins,
}

-- a file that is there stays there, and every path reads the same, a missing file as an empty one
abbrev pub Keeps : Files → Files → Type 0
Keeps before after =
    (path : FilePath)
    → (is_some (read path before) ≡ true → is_some (read path after) ≡ true)
      × (contents after path ≡ contents before path)

Keeps-trans : (a b c : Files) → Keeps a b → Keeps b c → Keeps a c
Keeps-trans a b c h k path = (λ there. (k path).0 ((h path).0 there), (k path).1 ∙ (h path).1)

empty_text-eq : (text : String) → empty_text text ≡ true → text ≡ ""
unfolding empty_text
empty_text-eq nil_text h = refl
empty_text-eq (cons_text c text) h = cc

emptied :
    (target : Target) (files : Files) (path : FilePath)
    → empty_text (contents files target.out) ≡ true
    → (is_some (read path files) ≡ true
        → is_some (read path (write target.out "" target.file_mode files)) ≡ true)
      × (contents (write target.out "" target.file_mode files) path ≡ contents files path)
emptied target files path blank = elim (Bool-cases (target.out == path)) [
  | inl same ↦
      let e : target.out ≡ path = (eq_iff target.out path).0 same in
      let now : read path (write target.out "" target.file_mode files) ≡ some "" =
        ground (arith, read-write target.out path "" target.file_mode files) in
      let before : contents files path ≡ "" =
        ap (contents files) (sym e) ∙ empty_text-eq (contents files target.out) blank in
      (λ _. ap is_some now, ap text_or_blank now ∙ sym before)
  | inr other ↦
      let now : read path (write target.out "" target.file_mode files) ≡ read path files =
        ground (arith, read-write target.out path "" target.file_mode files) in
      (λ there. ap is_some now ∙ there, ap text_or_blank now)
]

ensure_file-Keeps :
    (io : Io) (needed : Bool) (target : Target) (files files' : Files)
    → (needed ≡ true → empty_text (contents files target.out) ≡ true)
    → ensure_file io needed target files ≡ ok files'
    → Keeps files files'
unfolding ensure_file
ensure_file-Keeps io false target files files' blank h =
    subst (Keeps files) (ok-injective h) (λ path. (λ e. e, refl))
ensure_file-Keeps io true target files files' blank h = λ path.
    elim (Bool-cases (io.writes target.out)) [
      | inl works ↦
          let same : write target.out "" target.file_mode files ≡ files' =
            ok-injective (rw works at h) in
          subst
            (λ f.
              (is_some (read path files) ≡ true → is_some (read path f) ≡ true)
              × (contents f path ≡ contents files path))
            same (emptied target files path (blank refl))
      | inr fails ↦ cc (rw fails at h)
    ]

ensure_file-there :
    (io : Io) (needed : Bool) (target : Target) (files files' : Files)
    → (needed ≡ false → is_some (read target.out files) ≡ true)
    → ensure_file io needed target files ≡ ok files'
    → is_some (read target.out files') ≡ true
unfolding ensure_file
ensure_file-there io false target files files' there h =
    subst (λ f. is_some (read target.out f) ≡ true) (ok-injective h) (there refl)
ensure_file-there io true target files files' there h = elim (Bool-cases (io.writes target.out)) [
  | inl works ↦
      let same : write target.out "" target.file_mode files ≡ files' =
        ok-injective (rw works at h) in
      subst (λ f. is_some (read target.out f) ≡ true) same
        (ap is_some (read-write-same target.out "" target.file_mode files))
  | inr fails ↦ cc (rw fails at h)
]

none-blank : (o : Option String) → is_none o ≡ true → empty_text (text_or_blank o) ≡ true
unfolding empty_text
none-blank none h = refl
none-blank (some text) h = cc

not_none : (o : Option String) → is_none o ≡ false → is_some o ≡ true
not_none none h = cc
not_none (some text) h = refl

ensure_files-Keeps :
    (io : Io) (targets : List Target) (files files' : Files)
    → ensure_files io targets files ≡ ok files'
    → Keeps files files' × All (λ t. is_some (read t.out files') ≡ true) targets
unfolding ensure_files
ensure_files-Keeps io [] files files' h =
    (subst (Keeps files) (ok-injective h) (λ path. (λ e. e, refl)), tt)
ensure_files-Keeps io (target ∷ more) files files' h =
    let (middle, first, h') =
      >>=-eq-ok (ensure_file io (is_none (read target.out files)) target files) _ h in
    let (kept, there) = ensure_files-Keeps io more middle files' h' in
    let once =
      ensure_file-Keeps io (is_none (read target.out files)) target files middle
        (none-blank (read target.out files)) first in
    let here =
      ensure_file-there io (is_none (read target.out files)) target files middle
        (not_none (read target.out files)) first in
    (Keeps-trans files middle files' once kept, ((kept target.out).0 here, there))

has_text : (o : Option String) → empty_text (text_or_blank o) ≡ false → is_some o ≡ true
unfolding empty_text
has_text none h = cc
has_text (some text) h = refl

-- Under `best-effort`, an agent that starts without its store finds every one of its outputs on the disk
-- afterwards, and every path reads as it did before, a missing file as an empty one.
pub recovered-there :
    (io : Io) (spec : Spec) (w : World) (found : Recovered)
    → spec.startup_policy ≡ best_effort
    → recovered io spec w ≡ ok found
    → All (λ t. is_some (read t.out found.0.files) ≡ true) (spec.main ∷ spec.also)
      × ((path : FilePath) → contents found.0.files path ≡ contents w.files path)
unfolding recovered
recovered-there io spec w found policy h =
    let (first, main, h') =
      >>=-eq-ok (ensure_file io (empty_text (contents w.files spec.main.out)) spec.main w.files) _
        (rw policy at h) in
    let (files, rest, h'') = >>=-eq-ok (ensure_files io spec.also first) _ h' in
    let kept =
      ensure_file-Keeps io (empty_text (contents w.files spec.main.out)) spec.main w.files first
        (λ e. e) main in
    let there =
      ensure_file-there io (empty_text (contents w.files spec.main.out)) spec.main w.files first
        (has_text (read spec.main.out w.files)) main in
    let (later, others) = ensure_files-Keeps io spec.also first files rest in
    let same : files ≡ found.0.files = ap (λ (r : Recovered). r.0.files) (ok-injective h'') in
    let whole = Keeps-trans w.files first files kept later in
    subst
      (λ f.
        All (λ t. is_some (read t.out f) ≡ true) (spec.main ∷ spec.also)
        × ((path : FilePath) → contents f path ≡ contents w.files path))
      same (((later spec.main.out).0 there, others), λ path. (whole path).1)

module _ {V R : Type 0} (digest : String → String)
    (render_all : Fetched V → Result R (List Published)) (spec : Spec) where
  files-held_lease :
      (lease : Option Lease) (w : World)
      → (held_lease digest render_all spec lease w).files ≡ w.files
  files-held_lease none w = refl
  files-held_lease (some lease) w = refl

  -- An agent that starts from a document serves what it was rendered to, and that stands on the disk, if
  -- no two of its outputs are one file.
  pub start-serves :
      (io : Io) (first : Fetched V) (set : List Published) (w : World) (l : Loop V)
      → render_all first ≡ ok set
      → AreApart set
      → start digest render_all spec io (fetched first) w ≡ ok l
      → (l.rendered ≡ some set) × (drifted l.world.files set ≡ none) × (l.lease ≡ first.lease)
  unfolding start begin
  start-serves io first set w l r apart h =
      let result = publish digest io spec.output set first.revision w in
      let (u, written, h') = >>=-eq-ok (ensure result.1 not_written) _ (rw r at h) in
      let done : result.1 ≡ true = ground arith in
      let begun : Loop V =
        begins digest render_all spec (held_lease digest render_all spec first.lease result.0) set
          first.lease (first ∷ []) in
      let same : begun ≡ l = ok-injective h' in
      let disk = drifted-publish digest io spec.output set first.revision w apart done in
      let kept = files-held_lease first.lease result.0 in
      (
        ap (λ (x : Loop V). x.rendered) (sym same),
        ap (λ (x : Loop V). drifted x.world.files set) (sym same)
            ∙ ap (λ f. drifted f set) kept
            ∙ disk,
        ap (λ (x : Loop V). x.lease) (sym same),
      )
