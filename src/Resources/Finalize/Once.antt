-- ===== src/Resources/Finalize/Once.antt =====
-- Calls of `run_resource_finalizers` of resources.py that follow one another.
use mathlib.Core.Path.{subst}
use mathlib.Core.List.{map-append, append_assoc, append-nil}
use hermes_plugin_dynamic_wo.Prelude.{
  String, ◌≡◌, refl, sym, ap, ◌∙◌, true, not, ◌||◌, List, [], ◌∷◌, ◌++◌, arith, member, Bool-cases,
  inl, inr, map, All,
}
use hermes_plugin_dynamic_wo.Python.Value.{Value, Fields}
use hermes_plugin_dynamic_wo.Grants.Records.{Platform}
use hermes_plugin_dynamic_wo.Resources.Records.{
  ResourceFinalizer, WorkflowResource, FinalizerResult, Result, ok, triggers, result_to_dict,
}
use hermes_plugin_dynamic_wo.Resources.Keys.{Key, key_of, is_completed, keys_of}
use hermes_plugin_dynamic_wo.Resources.Finalize.{
  Runner, Progress, visit, visit_finalizers, visit_resources, run_resource_finalizers,
}
use hermes_plugin_dynamic_wo.Resources.Finalize.Named.{
  is_completed-append, same_key_refl, keys_of-append, run_one_key,
}

module _ (p : Platform) (mask : String → String) where
  module _ {S : Type 0} (runner : Runner S) (trigger run_id : String) (name : Value) where
    -- What is completed is what was, and the keys of the new results.
    abbrev Tracks : List Key → Progress S → Type 0
    Tracks base g = g.completed ≡ base ++ keys_of (map result_to_dict g.results)

    visit-Tracks :
        (base : List Key) (r : WorkflowResource) (f : ResourceFinalizer) (g : Progress S)
        → Tracks base g
        → Tracks base (visit p mask runner trigger run_id name r f g)
    unfolding visit keys_of
    visit-Tracks base r f g h =
        elim (Bool-cases
          (is_completed (key_of r f trigger) g.completed || not (member trigger f.when))) [
            | inl e ↦ rw e h
            | inr e ↦ rw e (
                rw (map-append, keys_of-append, h, append_assoc)
                  (ap (λ k. base ++ (keys_of (map result_to_dict g.results) ++ k ∷ []))
                    (sym (run_one_key p mask runner trigger run_id name r f g.outside))))
          ]

    -- A finalizer needs nothing more: it is completed, or not due.
    abbrev Settled : List Key → WorkflowResource → ResourceFinalizer → Type 0
    Settled done r f =
        (is_completed (key_of r f trigger) done || not (member trigger f.when)) ≡ true

    visit-Settled :
        (r : WorkflowResource) (f : ResourceFinalizer) (g : Progress S)
        → Settled (visit p mask runner trigger run_id name r f g).completed r f
    unfolding visit
    visit-Settled r f g =
        elim (Bool-cases
          (is_completed (key_of r f trigger) g.completed || not (member trigger f.when))) [
            | inl e ↦ rw e e
            | inr e ↦
                let added =
                  is_completed-append (key_of r f trigger) g.completed (key_of r f trigger ∷ []) in
                let same = same_key_refl r f trigger in rw e (ground (arith, added, same))
          ]

    visit_keeps :
        (k : Key) (r : WorkflowResource) (f : ResourceFinalizer) (g : Progress S)
        → is_completed k g.completed ≡ true
        → is_completed k (visit p mask runner trigger run_id name r f g).completed ≡ true
    unfolding visit
    visit_keeps k r f g h =
        elim (Bool-cases
          (is_completed (key_of r f trigger) g.completed || not (member trigger f.when))) [
            | inl e ↦ rw e h
            | inr e ↦
                rw e (rw (is_completed-append k g.completed (key_of r f trigger ∷ []), h) refl)
          ]

    visit_idle :
        (r : WorkflowResource) (f : ResourceFinalizer) (g : Progress S)
        → Settled g.completed r f
        → visit p mask runner trigger run_id name r f g ≡ g
    unfolding visit
    visit_idle r f g h = rw h refl

    finalizers-Tracks :
        (base : List Key) (r : WorkflowResource) (fs : List ResourceFinalizer) (g : Progress S)
        → Tracks base g
        → Tracks base (visit_finalizers p mask runner trigger run_id name r fs g)
    unfolding visit_finalizers
    finalizers-Tracks base r [] g h = h
    finalizers-Tracks base r (f ∷ fs) g h =
        finalizers-Tracks base r fs _ (visit-Tracks base r f g h)

    finalizers_keep :
        (k : Key) (r : WorkflowResource) (fs : List ResourceFinalizer) (g : Progress S)
        → is_completed k g.completed ≡ true
        → is_completed k (visit_finalizers p mask runner trigger run_id name r fs g).completed
          ≡ true
    unfolding visit_finalizers
    finalizers_keep k r [] g h = h
    finalizers_keep k r (f ∷ fs) g h = finalizers_keep k r fs _ (visit_keeps k r f g h)

    -- More that is completed leaves settled what was.
    Settled-more :
        (old new : List Key) (r : WorkflowResource) (f : ResourceFinalizer)
        → ((k : Key) → is_completed k old ≡ true → is_completed k new ≡ true)
        → Settled old r f
        → Settled new r f
    Settled-more old new r f more h =
        let kept = more (key_of r f trigger) in
        elim (Bool-cases (is_completed (key_of r f trigger) old)) [
          | inl e ↦ rw (kept e) refl
          | inr e ↦ ground (arith, e)
        ]

    finalizers-Settled :
        (r : WorkflowResource) (fs : List ResourceFinalizer) (g : Progress S)
        → All (Settled (visit_finalizers p mask runner trigger run_id name r fs g).completed r) fs
    unfolding visit_finalizers
    finalizers-Settled r [] g = tt
    finalizers-Settled r (f ∷ fs) g = (
      Settled-more _ _ r f
          (λ k. finalizers_keep k r fs (visit p mask runner trigger run_id name r f g))
          (visit-Settled r f g),
      finalizers-Settled r fs (visit p mask runner trigger run_id name r f g),
    )

    finalizers_idle :
        (r : WorkflowResource) (fs : List ResourceFinalizer) (g : Progress S)
        → All (Settled g.completed r) fs
        → visit_finalizers p mask runner trigger run_id name r fs g ≡ g
    unfolding visit_finalizers
    finalizers_idle r [] g h = refl
    finalizers_idle r (f ∷ fs) g h = rw (visit_idle r f g h.0) (finalizers_idle r fs g h.1)

    resources-Tracks :
        (base : List Key) (rs : List WorkflowResource) (g : Progress S)
        → Tracks base g
        → Tracks base (visit_resources p mask runner trigger run_id name rs g)
    unfolding visit_resources
    resources-Tracks base [] g h = h
    resources-Tracks base (r ∷ rs) g h =
        resources-Tracks base rs _ (finalizers-Tracks base r r.finalizers g h)

    resources_keep :
        (k : Key) (rs : List WorkflowResource) (g : Progress S)
        → is_completed k g.completed ≡ true
        → is_completed k (visit_resources p mask runner trigger run_id name rs g).completed ≡ true
    unfolding visit_resources
    resources_keep k [] g h = h
    resources_keep k (r ∷ rs) g h = resources_keep k rs _ (finalizers_keep k r r.finalizers g h)

    abbrev AllSettled : List Key → List WorkflowResource → Type 0
    AllSettled done rs = All (λ r. All (Settled done r) r.finalizers) rs

    All-Settled-more :
        (old new : List Key) (r : WorkflowResource) (fs : List ResourceFinalizer)
        → ((k : Key) → is_completed k old ≡ true → is_completed k new ≡ true)
        → All (Settled old r) fs
        → All (Settled new r) fs
    All-Settled-more old new r [] more h = tt
    All-Settled-more old new r (f ∷ fs) more h =
        (Settled-more old new r f more h.0, All-Settled-more old new r fs more h.1)

    resources-Settled :
        (rs : List WorkflowResource) (g : Progress S)
        → AllSettled (visit_resources p mask runner trigger run_id name rs g).completed rs
    unfolding visit_resources
    resources-Settled [] g = tt
    resources-Settled (r ∷ rs) g =
        let g' = visit_finalizers p mask runner trigger run_id name r r.finalizers g in
        (
          All-Settled-more _ _ r r.finalizers (λ k. resources_keep k rs g')
              (finalizers-Settled r r.finalizers g),
          resources-Settled rs g',
        )

    resources_idle :
        (rs : List WorkflowResource) (g : Progress S)
        → AllSettled g.completed rs
        → visit_resources p mask runner trigger run_id name rs g ≡ g
    unfolding visit_resources
    resources_idle [] g h = refl
    resources_idle (r ∷ rs) g h =
        rw (finalizers_idle r r.finalizers g h.0) (resources_idle rs g h.1)

    -- What a call that returns is.
    run-eq-ok :
        (resources : List WorkflowResource) (existing : List Fields) (s s' : S)
        (results : List FinalizerResult)
        → run_resource_finalizers p mask runner trigger run_id name resources existing s
          ≡ (ok results, s')
        → (g : Progress S) × (member trigger triggers ≡ true)
          × (g
              ≡ visit_resources p mask runner trigger run_id name resources
                  (record { completed = keys_of existing; results = []; outside = s }))
          × (g.results ≡ results)
          × (g.outside ≡ s')
    unfolding run_resource_finalizers
    run-eq-ok resources existing s s' results h = elim (Bool-cases (member trigger triggers)) [
      | inl e ↦ let k = rw e at h in (_, e, refl, same_results (ap (λ x. x.0) k), ap (λ x. x.1) k)
      | inr e ↦ let k = rw e at h in let bad = ap (λ x. x.0) k in cc
    ]
      where
        same_results :
            {a b : List FinalizerResult}
            → ◌≡◌ {A = Result (List FinalizerResult)} (ok a) (ok b)
            → a ≡ b
        same_results k = cc

module _ (p : Platform) (mask : String → String) {S : Type 0} (runner again : Runner S) where
  -- Where a first call returned results, a second call of the same trigger, over the same resources
  -- and with those results added to the ones recorded, with any runner, returns none and leaves the
  -- state outside alone.
  pub run_resource_finalizers_again :
      (trigger run_id : String) (name : Value) (resources : List WorkflowResource)
      (existing : List Fields) (s s' : S) (results : List FinalizerResult)
      → run_resource_finalizers p mask runner trigger run_id name resources existing s
        ≡ (ok results, s')
      → run_resource_finalizers p mask again trigger run_id name resources
          (existing ++ map result_to_dict results)
          s'
        ≡ (ok [], s')
  unfolding run_resource_finalizers
  run_resource_finalizers_again trigger run_id name resources existing s s' results h =
      let (g, due, e, same, outside) =
        run-eq-ok p mask runner trigger run_id name resources existing s s' results h in
      let start : Progress S = record { completed = keys_of existing; results = []; outside = s } in
      let g0 : Progress S = visit_resources p mask runner trigger run_id name resources start in
      let tracks =
        resources-Tracks p mask runner trigger run_id name (keys_of existing) resources start
          (sym (append-nil (keys_of existing))) in
      let recorded =
        keys_of-append existing (map result_to_dict results)
        ∙ ap (λ rs. keys_of existing ++ keys_of (map result_to_dict rs))
            (sym same ∙ ap (λ (x : Progress S). x.results) e)
        ∙ sym tracks in
      let idle =
        resources_idle p mask again trigger run_id name resources
          (record {
            completed = keys_of (existing ++ map result_to_dict results);
            results = [];
            outside = s';
          })
          (subst (λ c. AllSettled p mask again trigger run_id name c resources) (sym recorded)
            (resources-Settled p mask runner trigger run_id name resources start)) in
      rw due (ap (λ (x : Progress S). (ok x.results, x.outside)) idle)
