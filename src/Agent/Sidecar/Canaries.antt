-- ===== src/Agent/Sidecar/Canaries.antt =====
-- dynamic-config-agent/src/sidecar.rs: a document that is held back, and what becomes of it.
use dynamic_config_k8s.Prelude.{
  String, ◌≡◌, ap, ◌∙◌, inl, inr, true, false, Option, none, some, List, ◌∷◌, arith, All, Result,
  ok, Result-cases,
}
use dynamic_config_k8s.Agent.Canary.{admitted}
use dynamic_config_k8s.Agent.Files.{Published, drifted, unchanged}
use dynamic_config_k8s.Agent.Publishing.{Io, publish}
use dynamic_config_k8s.Agent.Publishing.Written.{publish-written, AreApart, drifted-publish}
use dynamic_config_k8s.Agent.Metrics.{canary_admitted, Revision}
use dynamic_config_k8s.Agent.Sidecar.{
  share, count, cohort_or_zero, Fetched, Loop, Spec, canarying, running, serve, held_back, arrived,
  widen, step,
}

module _ {V R : Type 0} (digest : String → String)
    (render_all : Fetched V → Result R (List Published)) (spec : Spec) where
  -- A changed document that arrives while the pod is outside the cohort is held: what is served, and the
  -- files, stay as they are, nobody hears of it, and an older document that was held is dropped.
  pub arrived-held :
      (io : Io) (document : Fetched V) (fresh : List Published) (l : Loop V)
      → render_all document ≡ ok fresh
      → unchanged l.rendered fresh ≡ false
      → held_back digest render_all spec io ≡ true
      → ((arrived digest render_all spec io document l).withheld ≡ some fresh)
        × ((arrived digest render_all spec io document l).rendered ≡ l.rendered)
        × ((arrived digest render_all spec io document l).world.files ≡ l.world.files)
        × ((arrived digest render_all spec io document l).heard ≡ l.heard)
  unfolding arrived
  arrived-held io document fresh l r u h = ground arith

  -- serving writes a set, or leaves what is held
  withheld-serve :
      (io : Io) (fresh : List Published) (revision : Option Revision) (l : Loop V)
      → (serve digest render_all spec io fresh revision l).withheld ≡ l.withheld
  unfolding serve
  withheld-serve io fresh revision l = ground arith

  -- a set whose every write works is served
  pub serve-written :
      (io : Io) (fresh : List Published) (revision : Option Revision) (l : Loop V)
      → All (λ file. io.writes file.out ≡ true) fresh
      → serve digest render_all spec io fresh revision l ≡ record l {
        world = (publish digest io spec.output fresh revision l.world).0;
        rendered = some fresh;
      }
  unfolding serve
  serve-written io fresh revision l works =
      let written = publish-written digest io spec.output fresh revision l.world works in
      ground (arith, written)

  withheld-arrived :
      (io : Io) (document : Fetched V) (l : Loop V)
      → held_back digest render_all spec io ≡ false
      → (arrived digest render_all spec io document l).withheld ≡ l.withheld
  unfolding arrived
  withheld-arrived io document l now = elim (Result-cases (render_all document)) [
    | inl (fresh, e) ↦
        let served =
          withheld-serve io fresh document.revision (record l { heard = document ∷ l.heard }) in
        ground (arith, served)
    | inr (r, e) ↦ ground arith
  ]

  admitted_now :
      (io : Io)
      → held_back digest render_all spec io ≡ false
      → admitted (cohort_or_zero spec.cohort) (share digest render_all spec io) ≡ true
  unfolding held_back admitted
  admitted_now io h = ground arith

  abbrev taken : Io → Loop V → Loop V
  taken io m =
      record (count digest render_all spec (canary_admitted (share digest render_all spec io)) m) {
        withheld = none;
      }

  widen-admitted :
      (io : Io) (old : List Published) (m : Loop V)
      → admitted (cohort_or_zero spec.cohort) (share digest render_all spec io) ≡ true
      → widen digest render_all spec io old m
        ≡ serve digest render_all spec io old none (taken io m)
  unfolding widen
  widen-admitted io old m opened = ground arith

  step-canarying :
      (io : Io) (old : List Published) (m : Loop V)
      → m.withheld ≡ some old
      → step digest render_all spec io canarying m ≡ running (widen digest render_all spec io old m)
  unfolding step
  step-canarying io old m held = ground arith

  -- A document that was held is on the disk once the percentage admits the pod, if its writes work.
  pub canarying-serves :
      (io : Io) (old : List Published) (m : Loop V)
      → m.withheld ≡ some old
      → AreApart old
      → held_back digest render_all spec io ≡ false
      → All (λ file. io.writes file.out ≡ true) old
      → (next : Loop V) × (step digest render_all spec io canarying m ≡ running next)
        × (next.rendered ≡ some old)
        × (drifted next.world.files old ≡ none)
  canarying-serves io old m held apart now works =
      let wide = widen-admitted io old m (admitted_now io now) in
      let served = serve-written io old none (taken io m) works in
      let written = publish-written digest io spec.output old none (taken io m).world works in
      (
        serve digest render_all spec io old none (taken io m),
        step-canarying io old m held ∙ ap running wide,
        ap (λ (x : Loop V). x.rendered) served,
        ap (λ (x : Loop V). drifted x.world.files old) served
            ∙ drifted-publish digest io spec.output old none (taken io m).world apart written,
      )

  -- A document that arrives while an older one is held, and that the cohort admits, does not drop the
  -- older one: the next look at the percentage, if it still admits the pod and its writes work, puts the
  -- older document on the disk, whatever the newer one was.
  pub widen-stale :
      (io later : Io) (document : Fetched V) (old : List Published) (l : Loop V)
      → l.withheld ≡ some old
      → AreApart old
      → held_back digest render_all spec io ≡ false
      → held_back digest render_all spec later ≡ false
      → All (λ file. later.writes file.out ≡ true) old
      → (next : Loop V) × (step digest render_all spec later canarying
            (arrived digest render_all spec io document l)
          ≡ running next)
        × (next.rendered ≡ some old)
        × (drifted next.world.files old ≡ none)
  widen-stale io later document old l held apart now still works =
      canarying-serves later old (arrived digest render_all spec io document l)
        (withheld-arrived io document l now ∙ held) apart still works
