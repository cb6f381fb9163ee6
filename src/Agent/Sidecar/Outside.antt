-- ===== src/Agent/Sidecar/Outside.antt =====
-- dynamic-config-agent/src/sidecar.rs: what the loop never touches.
use dynamic_config_k8s.Prelude.{
  String, ◌≡◌, refl, sym, ap, ◌∙◌, subst, ◌⊎◌, inl, inr, Bool, true, false, Option, none, some,
  List, [], ◌∷◌, arith, if◌then◌else◌, Option-cases, ◌==◌, any, Result, ok, Result-cases,
}
use dynamic_config_k8s.Agent.Files.{FilePath, Published, Files, read, write}
use dynamic_config_k8s.Agent.Files.Reads.{read-write-other}
use dynamic_config_k8s.Agent.Publishing.{Io}
use dynamic_config_k8s.Agent.Publishing.Written.{avoids}
use dynamic_config_k8s.Agent.Publishing.Traces.{Traces, traces, traces-eq, traces-publish}
use dynamic_config_k8s.Agent.Metrics.{
  drifted, delivered, lease_renewal_failed, canary_admitted, Revision,
}
use dynamic_config_k8s.Agent.Sidecar.{
  outputs, share, Failure, Ended, watch_ended, pushed, resync_answered, trusting, renewal, count,
  stopped, fetched, Fetched, Loop, Spec, Answer, Event, Lease, Outcome, running, ended, failed,
  serve, arrived, stop, receive, reissue, renew, widen, repaired, check_drift, empty_files, deleted,
  resync, step, is_absent, no_answer, told, reaped, resync_started, drifting, canarying,
  gone_changed, received, revoked,
}

abbrev pub away : FilePath → Option (List Published) → Bool
away path none = true
away path (some set) = avoids path set

-- neither the set that is served nor the one that is held goes to the path
abbrev pub IsAway : {V : Type 0} → FilePath → Loop V → Type 0
IsAway path l = (away path l.rendered ≡ true) × (away path l.withheld ≡ true)

abbrev pub there : {V : Type 0} → FilePath → Loop V → Traces
there path l = traces path l.world.files l.world.kept l.world.metas

-- all that there is of the path is the same afterwards, and no set goes there
abbrev pub Spares : {V : Type 0} → FilePath → Loop V → Loop V → Type 0
Spares path before after =
    (traces path after.world.files after.world.kept after.world.metas
      ≡ traces path before.world.files before.world.kept before.world.metas)
    × IsAway path after

abbrev pub state : {V : Type 0} → Outcome V → Loop V
state (running l) = l
state (ended _ l) = l
state (failed _ l) = l

-- the outcome of some events, in their order; a loop that has ended takes no more
unfoldable pub run :
    {V R : Type 0}
    → (String → String)
    → (Fetched V → Result R (List Published))
    → Spec
    → List (Io × Event V)
    → Loop V
    → Outcome V
run digest render_all spec [] l = running l
run digest render_all spec ((io, event) ∷ more) l = elim (step digest render_all spec io event l) [
  | running next ↦ run digest render_all spec more next
  | ended how next ↦ ended how next
  | failed why next ↦ failed why next
]

Outcome-cases :
    {V : Type 0} (o : Outcome V)
    → ((next : Loop V) × (o ≡ running next))
      ⊎ (((how : Ended) × (next : Loop V) × (o ≡ ended how next))
          ⊎ ((why : Failure) × (next : Loop V) × (o ≡ failed why next)))
Outcome-cases (running next) = inl (next, refl)
Outcome-cases (ended how next) = inr (inl (how, next, refl))
Outcome-cases (failed why next) = inr (inr (why, next, refl))

module _ {V R : Type 0} (digest : String → String)
    (render_all : Fetched V → Result R (List Published)) (spec : Spec) (path : FilePath)
    (rendered_elsewhere : (document : Fetched V) (set : List Published)
      → render_all document ≡ ok set
      → avoids path set ≡ true)
    (no_output : any (λ out. out == path) (outputs spec) ≡ false) where
  Spares-serve :
      (io : Io) (fresh : List Published) (revision : Option Revision) (l : Loop V)
      → avoids path fresh ≡ true
      → IsAway path l
      → Spares path l (serve digest render_all spec io fresh revision l)
  unfolding serve
  Spares-serve io fresh revision l apart h =
      let kept = traces-publish digest io spec.output path fresh revision l.world apart in
      ground (arith, kept)

  Spares-arrived :
      (io : Io) (document : Fetched V) (l : Loop V)
      → IsAway path l
      → Spares path l (arrived digest render_all spec io document l)
  unfolding arrived
  Spares-arrived io document l h = elim (Result-cases (render_all document)) [
    | inl (fresh, e) ↦
        let apart = rendered_elsewhere document fresh e in
        let served =
          Spares-serve io fresh document.revision (record l { heard = document ∷ l.heard }) apart
            h in
        ground (arith, served)
    | inr (_, e) ↦ ground arith
  ]

  Spares-reissue :
      (io : Io) (reply : Answer V) (l : Loop V)
      → IsAway path l
      → Spares path l (reissue digest render_all spec io reply l)
  unfolding reissue
  Spares-reissue io (fetched document) l h =
      Spares-arrived io document (record l { lease = document.lease }) h
  Spares-reissue io is_absent l h = (refl, h)
  Spares-reissue io no_answer l h = (refl, h)

  Spares-renew :
      (io : Io) (held : Lease) (extended : Option (Result (Unit {0}) Lease)) (reply : Answer V)
      (l : Loop V)
      → IsAway path l
      → Spares path l (renew digest render_all spec io held extended reply l)
  unfolding renew
  Spares-renew io held extended reply l h =
      let counted : Loop V = count digest render_all spec lease_renewal_failed l in
      let again = Spares-reissue io reply counted h in
      ground (arith, again, Spares-reissue io reply l h)

  Spares-widen :
      (io : Io) (fresh : List Published) (l : Loop V)
      → avoids path fresh ≡ true
      → IsAway path l
      → Spares path l (widen digest render_all spec io fresh l)
  unfolding widen
  Spares-widen io fresh l apart h =
      let taken : Loop V =
        record (count digest render_all spec (canary_admitted (share digest render_all spec io))
          l) { withheld = none } in
      let served = Spares-serve io fresh none taken apart (h.0, refl) in ground (arith, served)

  Spares-check_drift :
      (io : Io) (set : List Published) (l : Loop V)
      → avoids path set ≡ true
      → IsAway path l
      → Spares path l (state (check_drift digest render_all spec io set l))
  unfolding check_drift repaired
  Spares-check_drift io set l apart h =
      let noted : Loop V = count digest render_all spec drifted l in
      let kept = traces-publish digest io spec.output path set none noted.world apart in
      ground (arith, kept)

  read-empty_files :
      (io : Io) (outs : List FilePath) (files : Files)
      → any (λ out. out == path) outs ≡ false
      → read path (empty_files digest render_all spec io outs files) ≡ read path files
  unfolding empty_files
  read-empty_files io [] files h = refl
  read-empty_files io (out ∷ outs) files h =
      read-empty_files io outs (if io.writes out then write out "" none files else files)
        (ground arith)
      ∙ ground (arith, read-write-other out path "" none files)

  Spares-resync :
      (io : Io) (reply : Answer V) (l : Loop V)
      → IsAway path l
      → Spares path l (resync digest render_all spec io reply l)
  unfolding resync deleted
  Spares-resync io (fetched document) l h = (refl, h)
  Spares-resync io is_absent l h =
      let emptied_files = empty_files digest render_all spec io (outputs spec) l.world.files in
      let same =
        traces-eq path emptied_files l.world.files l.world.kept l.world.kept l.world.metas
          l.world.metas (read-empty_files io (outputs spec) l.world.files no_output) refl refl in
      ground (arith, same)
  Spares-resync io no_answer l h = (refl, h)

  Spares-receive :
      (io : Io) (l : Loop V) → IsAway path l → Spares path l (receive digest render_all spec io l)
  unfolding receive
  Spares-receive io l h = elim (Option-cases l.slot) [
    | inl e ↦ ground arith
    | inr (document, e) ↦
        let counted : Loop V = record (count digest render_all spec (delivered io.now) l) {
          slot = none;
        } in
        let served = Spares-arrived io document counted h in ground (arith, served)
  ]

  -- one event, whichever it is
  Spares-step :
      (io : Io) (event : Event V) (l : Loop V)
      → IsAway path l
      → Spares path l (state (step digest render_all spec io event l))
  unfolding step stop
  Spares-step io (stopped revoked) l h = ground arith
  Spares-step io (stopped _) l h = ground arith
  Spares-step io received l h = Spares-receive io l h
  Spares-step io gone_changed l h = ground arith
  Spares-step io (renewal extended reissued) l h = elim (Option-cases l.lease) [
    | inl e ↦ ground arith
    | inr (held, e) ↦
        let renewed = Spares-renew io held extended reissued l h in ground (arith, renewed)
  ]
  Spares-step io (trusting settled) l h = ground arith
  Spares-step io canarying l h = elim (Option-cases l.withheld) [
    | inl e ↦ ground arith
    | inr (fresh, e) ↦ let wide = Spares-widen io fresh l (ground arith) h in ground (arith, wide)
  ]
  Spares-step io drifting l h = elim (Option-cases l.rendered) [
    | inl e ↦ ground arith
    | inr (set, e) ↦
        let checked = Spares-check_drift io set l (ground arith) h in ground (arith, checked)
  ]
  Spares-step io resync_started l h = ground arith
  Spares-step io (resync_answered reply) l h =
      let answered = Spares-resync io reply l h in ground (arith, answered)
  Spares-step io reaped l h = ground arith
  Spares-step io (pushed document) l h = (refl, h)
  Spares-step io (watch_ended failing) l h = (refl, h)
  Spares-step io (told accepted) l h = ground arith

  -- However the store, the disk and the timers behave, the agent leaves every path alone that is no
  -- output of it: no event, and no sequence of events, changes its file, keeps a generation of it or
  -- describes it.
  pub traces-run :
      (events : List (Io × Event V)) (l : Loop V)
      → IsAway path l
      → there path (state (run digest render_all spec events l)) ≡ there path l
  unfolding run
  traces-run [] l h = refl
  traces-run ((io, event) ∷ more) l h =
      let (same, still) = Spares-step io event l h in
      elim (Outcome-cases (step digest render_all spec io event l)) [
        | inl (next, e) ↦
            let here : there path next ≡ there path l =
              ap (λ o. there path (state o)) (sym e) ∙ same in
            let away' : IsAway path next = subst (λ o. IsAway path (state o)) e still in
            let on : run digest render_all spec ((io, event) ∷ more) l
                ≡ run digest render_all spec more next =
              ground arith in
            ap (λ o. there path (state o)) on ∙ traces-run more next away' ∙ here
        | inr over ↦
            let on : run digest render_all spec ((io, event) ∷ more) l
                ≡ step digest render_all spec io event l =
              ground arith in
            ap (λ o. there path (state o)) on ∙ same
      ]
