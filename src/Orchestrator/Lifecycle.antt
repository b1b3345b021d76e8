-- ===== src/Orchestrator/Lifecycle.antt =====
-- The workers of a hierarchical plan (caspar_orchestrator.py): launched, provisioned and cleaned up.
use davinci_agent.Prelude.{
  String, ◌<>◌, ◌≡◌, refl, sym, ap, ◌∙◌, Bool, false, ◌||◌, Option, some, List, [], ◌∷◌, ◌++◌,
  append-nil, append_assoc, filter, find?, any, All, All-append, ◌==◌, eq_refl, arith, Option-cases,
  Bool-cases, inl, inr, if◌then◌else◌,
}
use davinci_agent.Prelude.Dict.{Dict, lookup, has, insert, values, lookup-insert}
use davinci_agent.Prelude.Value.{Value, string, dict, get}
use davinci_agent.Orchestrator.Defs.{ExecutionAction, WorkerTemplate, WorkerInstance, object}
use davinci_agent.Orchestrator.Client.{host_call}
use davinci_agent.Orchestrator.Workers.{
  launch, launch_worker, run_payload, worker_of, Run, provision_action, delegate_action,
}
use davinci_agent.Orchestrator.Hierarchy.{
  covers, provision, delegate, plan_category, plan_categories,
}
use davinci_agent.Orchestrator.Machines.{
  gather-snoc, named, provisioned, cleaned_up, delegated, run_of, started, machines, IsKeyed,
  insert-new, lookup-has, machines-snoc, find-keyed, find?-any, find?-none,
}

-- Carried out, the action sends `runVm` exactly for the machine that it provisions.
abbrev pub IsRun : ExecutionAction → Type 0
IsRun a =
    run_of (
      object (
        ("op", string a.host_function)
        ∷ ("key", string a.host_function)
        ∷ ("input", dict a.input_payload)
        ∷ []))
    ≡ named "provision_worker" "name" a

-- the categories that a template covers
abbrev pub is_covered : Dict WorkerTemplate → String → Bool
is_covered templates category = any (covers category) (values templates)

module _ (sent : List Value) where
  -- the machines of the workers launched so far: started and provisioned, none cleaned up
  pub record IsTracked (run : Run) : Type 0 where
    pub keyed : IsKeyed run.master.templates
    pub provisioned_all : provisioned run.actions ≡ machines run.launched
    pub started_all : started run.master.sent ≡ started sent ++ machines run.launched
    pub cleaned_none : cleaned_up run.actions ≡ []
    pub runs : All IsRun run.actions

  -- a turn of the loop that goes well
  pub record Goes (old : Run) (result : Option Run) (more : List String) : Type 0 where
    pub run : Run
    pub returned : result ≡ some run
    pub tracked : IsTracked run
    pub same_templates : run.master.templates ≡ old.master.templates
    pub delegated_more : delegated run.actions ≡ delegated old.actions ++ more

  -- and the template has a worker after it
  abbrev HasWorker : WorkerTemplate → Run → Option Run → Type 0
  HasWorker t old result =
      (g : Goes old result []) × (w : WorkerInstance) × (lookup t.role g.run.launched ≡ some w)

  module _ (task_id category : String) (t u : WorkerTemplate) (run : Run)
      (known : lookup t.role run.master.templates ≡ some u) (tracked : IsTracked run) where
    abbrev worker : WorkerInstance
    worker = worker_of u (t.role <> "-" <> task_id) task_id

    abbrev launched_run : Run
    launched_run = record run {
      master = (launch u (t.role <> "-" <> task_id) task_id run.master).1;
      launched = insert t.role worker run.launched;
      actions = run.actions ++ provision_action t worker category ∷ [];
      high_risk = run.high_risk || t.risk_level == "high";
    }

    launched-IsTracked : has t.role run.launched ≡ false → IsTracked launched_run
    unfolding launch host_call run_payload provision_action get
    launched-IsTracked new =
        let ins = insert-new t.role worker run.launched new in
        let ms : machines (insert t.role worker run.launched)
            ≡ machines run.launched ++ worker.machine_id ∷ [] =
          ap machines ins ∙ machines-snoc run.launched t.role worker in
        let act = provision_action t worker category in
        record {
          keyed = tracked.keyed;
          provisioned_all =
              gather-snoc (named "provision_worker" "name") run.actions act
              ∙ ap (λ l. l ++ worker.machine_id ∷ []) tracked.provisioned_all
              ∙ sym ms;
          started_all =
              gather-snoc run_of run.master.sent _
              ∙ ap (λ l. l ++ worker.machine_id ∷ []) tracked.started_all
              ∙ append_assoc (started sent) (machines run.launched) (worker.machine_id ∷ [])
              ∙ ap (λ l. started sent ++ l) (sym ms);
          cleaned_none =
              gather-snoc (named "cleanup_worker" "machineId") run.actions act
              ∙ append-nil (cleaned_up run.actions)
              ∙ tracked.cleaned_none;
          runs = All-append IsRun run.actions (act ∷ []) tracked.runs (refl, tt);
        }

    launched-Goes :
        has t.role run.launched ≡ false → HasWorker t run (provision task_id category t run)
    unfolding provision launch_worker launch provision_action
    launched-Goes new = (
      record {
        run = launched_run;
        returned = rw (new, known) refl;
        tracked = launched-IsTracked new;
        same_templates = refl;
        delegated_more =
            gather-snoc (λ a. if a.phase == "signal_request" then a.category ∷ [] else [])
              run.actions (provision_action t worker category);
      },
      worker,
      lookup-insert t.role t.role worker run.launched ∙ rw (eq_refl t.role) refl,
    )

  module _ (task category : String) (t : WorkerTemplate) (run : Run) (tracked : IsTracked run)
      (w : WorkerInstance) (known : lookup t.role run.launched ≡ some w) where
    delegate-Goes : Goes run (delegate task category t run) (category ∷ [])
    unfolding delegate delegate_action get
    delegate-Goes =
        let act = delegate_action w task category in
        record {
          run = record run { actions = run.actions ++ act ∷ [] };
          returned = rw (delegate, known) refl;
          tracked = record {
            keyed = tracked.keyed;
            provisioned_all =
                gather-snoc (named "provision_worker" "name") run.actions act
                ∙ append-nil (provisioned run.actions)
                ∙ tracked.provisioned_all;
            started_all = tracked.started_all;
            cleaned_none =
                gather-snoc (named "cleanup_worker" "machineId") run.actions act
                ∙ append-nil (cleaned_up run.actions)
                ∙ tracked.cleaned_none;
            runs = All-append IsRun run.actions (act ∷ []) tracked.runs (refl, tt);
          };
          same_templates = refl;
          delegated_more =
              gather-snoc (λ a. if a.phase == "signal_request" then a.category ∷ [] else [])
                run.actions act;
        }

  -- the template has a worker, of before or new
  provision-Goes :
      (task_id category : String) (t u : WorkerTemplate) (run : Run)
      → lookup t.role run.master.templates ≡ some u
      → IsTracked run
      → HasWorker t run (provision task_id category t run)
  unfolding provision
  provision-Goes task_id category t u run known tracked =
      elim (Bool-cases (has t.role run.launched)) [
        | inl old ↦
            let (w, e) = lookup-has t.role run.launched old in
            (
              record {
                run = run;
                returned = rw (provision, old) refl;
                tracked = tracked;
                same_templates = refl;
                delegated_more = sym (append-nil (delegated run.actions));
              },
              w,
              e,
            )
        | inr new ↦ launched-Goes task_id category t u run known tracked new
      ]

  plan_category-Goes :
      (task task_id category : String) (run : Run)
      → IsTracked run
      → Goes run
          (plan_category task task_id category run)
          (filter (is_covered run.master.templates) (category ∷ []))
  unfolding plan_category
  plan_category-Goes task task_id category run tracked =
      elim (Option-cases (find? (covers category) (values run.master.templates))) [
        | inl nobody ↦
            let no = find?-none (covers category) (values run.master.templates) nobody in
            record {
              run = record run { missing = run.missing ++ category ∷ [] };
              returned = rw (plan_category, nobody) refl;
              tracked = record {
                keyed = tracked.keyed;
                provisioned_all = tracked.provisioned_all;
                started_all = tracked.started_all;
                cleaned_none = tracked.cleaned_none;
                runs = tracked.runs;
              };
              same_templates = refl;
              delegated_more = rw no (sym (append-nil (delegated run.actions)));
            }
        | inr (t, found) ↦
            let yes_ = find?-any (covers category) (values run.master.templates) t found in
            let (u, known) =
              find-keyed (covers category) run.master.templates t tracked.keyed found in
            let (g, w, has_it) = provision-Goes task_id category t u run known tracked in
            let h = delegate-Goes task category t g.run g.tracked w has_it in
            record {
              run = h.run;
              returned = ground (arith, g.returned, h.returned);
              tracked = h.tracked;
              same_templates = h.same_templates ∙ g.same_templates;
              delegated_more = rw yes_ (
                  h.delegated_more
                  ∙ ap (λ l. l ++ category ∷ [])
                      (g.delegated_more ∙ append-nil (delegated run.actions)));
            }
      ]

  pub plan_categories-Goes :
      (task task_id : String) (categories : List String) (run : Run)
      → IsTracked run
      → Goes run
          (plan_categories task task_id categories run)
          (filter (is_covered run.master.templates) categories)
  unfolding plan_categories
  plan_categories-Goes task task_id [] run tracked = record {
    run = run;
    returned = refl;
    tracked = tracked;
    same_templates = refl;
    delegated_more = sym (append-nil (delegated run.actions));
  }
  plan_categories-Goes task task_id (category ∷ categories) run tracked =
      let g = plan_category-Goes task task_id category run tracked in
      let h = plan_categories-Goes task task_id categories g.run g.tracked in
      record {
        run = h.run;
        returned = ground (arith, g.returned, h.returned);
        tracked = h.tracked;
        same_templates = h.same_templates ∙ g.same_templates;
        delegated_more =
            h.delegated_more
            ∙ ap (λ l. delegated g.run.actions ++ filter (is_covered l) categories) g.same_templates
            ∙ ap (λ l. l ++ filter (is_covered run.master.templates) categories) g.delegated_more
            ∙ append_assoc (delegated run.actions)
                (filter (is_covered run.master.templates) (category ∷ []))
                (filter (is_covered run.master.templates) categories)
            ∙ ap (λ l. delegated run.actions ++ l) (ground arith);
      }
