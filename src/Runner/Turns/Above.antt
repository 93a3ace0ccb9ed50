-- ===== src/Runner/Turns/Above.antt =====
-- A run leaves no CLI file beyond the turn that it got to.
use agent_belt.Prelude.{
  ℕ, suc, ◌≤◌, ◌≡◌, refl, sym, ap, ◌∙◌, String, Bool, true, false, Option, none, some, List, [],
  ◌∷◌, get, put, is_some, nat_eq, nat_beq_iff, if◌then◌else◌, concat, Bool-cases, inl, inr, arith,
}
use agent_belt.Python.{Python}
use agent_belt.Entities.{TurnOutput, Turn}
use mathlib.Core.Path.{subst}
use agent_belt.Runner.Turns.Files.{get-put, cli-if}
use agent_belt.Runner.Turns.Reached.{cli-execute_turn, cli-clean_up}
use agent_belt.Runner.Turns.{
  failed, release, execute_turn, after_turn, fetched, write_turn, run_turn, run_turns,
  continue_with, clean_up, conclude, start, after_lock, after_setup, set_up, after_install,
  with_sandbox, with_workspace, acquire_workspace, run_scenario_turns, build_sandbox,
}
use agent_belt.Runner.Session.{
  agent_set_up, sandbox_up, acquired, released, Attempt, done, raised, World, Agent, Surroundings,
  Progress, Loop, next, break, propagate, record_event, write_sentinel, put_some, ScenarioResult,
}

-- No CLI file of the turn `n` or a later one.
abbrev pub NoneFrom : {S : Type 0} → ℕ → World S → Type 0
NoneFrom n w = (j : ℕ) → n ≤ j → is_some (get j w.cli) ≡ false

NoneFrom-put :
    {S : Type 0} (i : ℕ) (text : String) (w : World S)
    → NoneFrom i w
    → NoneFrom (suc i) (record w { cli = put i text w.cli })
NoneFrom-put i text w h j l =
    get-put i j text w.cli ∙ ground (arith, l, h j (omega (arith, l)), nat_beq_iff j i)

NoneFrom-suc : {S : Type 0} (i : ℕ) (w : World S) → NoneFrom i w → NoneFrom (suc i) w
NoneFrom-suc i w h j l = h j (omega (arith, l))

NoneFrom-put_some :
    {S : Type 0} (i : ℕ) (text : Option String) (w : World S)
    → NoneFrom i w
    → NoneFrom (suc i) (record w { cli = put_some i text w.cli })
NoneFrom-put_some i none w h = NoneFrom-suc i w h
NoneFrom-put_some i (some text) w h = NoneFrom-put i text w h

NoneFrom-write_sentinel :
    {S : Type 0} (text : ℕ → String → Option String) (i : ℕ) (e : String) (w : World S)
    → NoneFrom i w
    → NoneFrom (suc i) (write_sentinel text i e w)
NoneFrom-write_sentinel text i e w h j l = elim (Bool-cases (is_some (get i w.cli))) [
  | inl s ↦ rw s (NoneFrom-suc i w h j l)
  | inr s ↦ rw s (NoneFrom-put_some i (text i e) w h j l)
]

-- The same of a write that repeats that of the turn.
NoneFrom-put_again :
    {S : Type 0} (i : ℕ) (text : String) (w : World S)
    → NoneFrom (suc i) w
    → NoneFrom (suc i) (record w { cli = put i text w.cli })
NoneFrom-put_again i text w h j l =
    get-put i j text w.cli ∙ ground (arith, l, h j l, nat_beq_iff j i)

module _ (py : Python) {S : Type 0} (agent : Agent S (Python.Float py))
    (env : Surroundings (Python.Float py)) where
  open py use {Float}

  NoneFrom-fetched :
      (i : ℕ) (raw : String) (w : World S) (r : S × Attempt (TurnOutput Float))
      → NoneFrom i w
      → NoneFrom (suc i) (fetched py agent env i raw w r).0
  NoneFrom-fetched i raw w (s, done o) h j l = NoneFrom-suc i w h j l
  NoneFrom-fetched i raw w (s, raised e) h j l =
      NoneFrom-write_sentinel env.sentinel i (concat ("fetch_results error: " ∷ e ∷ []))
        (record w { agent = s }) h j l

  -- How a turn leaves the files above it.
  abbrev Ended : ℕ → Loop S Float → Type 0
  Ended i (next q) = (q.completed ≡ suc i) × NoneFrom (suc i) q.world
  Ended i (break q) = (q.completed ≡ i) × NoneFrom (suc i) q.world
  Ended i (propagate e q) = Unit

  Ended-write_turn :
      (a : Attempt (Unit {0})) (i : ℕ) (o : TurnOutput Float) (p : Progress S Float)
      → p.completed ≡ i
      → NoneFrom (suc i) p.world
      → Ended i (write_turn py agent env a i o p)
  Ended-write_turn (raised e) i o p c h = tt
  Ended-write_turn (done _) i o p c h =
      (omega (arith, c), λ j l. NoneFrom-put_again i o.raw_cli p.world h j l)

  Ended-after_turn :
      (i : ℕ) (turn : Turn Float) (p : Progress S Float) (r : World S × Attempt String)
      → p.completed ≡ i
      → NoneFrom i r.0
      → Ended i (after_turn py agent env i turn p r)
  Ended-after_turn i turn p (w, raised e) c h =
      (c, λ j l. NoneFrom-write_sentinel env.sentinel i e w h j l)
  Ended-after_turn i turn p (w, done raw) c h =
      Ended-write_turn (env.write_artifacts i) i _ _ c
        (NoneFrom-fetched i raw w (agent.fetch_results raw w.agent) h)

  Ended-run_turn :
      (i : ℕ) (turn : Turn Float) (p : Progress S Float)
      → p.completed ≡ i
      → NoneFrom i p.world
      → Ended i (run_turn py agent env i turn p)
  unfolding run_turn
  Ended-run_turn i turn p c h =
      let message = env.render turn.message p.outputs in
      Ended-after_turn i turn p (execute_turn py agent env i turn message p.world) c (λ j l.
        ap (λ d. is_some (get j d)) (cli-execute_turn py agent env i turn message p.world) ∙ h j l)

  abbrev LoopEnded : Progress S Float × Option String → Type 0
  LoopEnded (p, none) = NoneFrom (suc p.completed) p.world
  LoopEnded (p, some e) = Unit

  LoopEnded-continue_with :
      (i : ℕ) (turns : List (Turn Float)) (l : Loop S Float)
      → Ended i l
      → ((q : Progress S Float)
          → q.completed ≡ suc i
          → NoneFrom (suc i) q.world
          → LoopEnded (run_turns py agent env (suc i) turns q))
      → LoopEnded (continue_with py agent env i turns l)
  LoopEnded-continue_with i turns (next q) r ih = ih q r.0 r.1
  LoopEnded-continue_with i turns (break q) r ih = λ j l. r.1 j (omega (arith, l, r.0))
  LoopEnded-continue_with i turns (propagate x q) r ih = tt

  LoopEnded-run_turns :
      (i : ℕ) (turns : List (Turn Float)) (p : Progress S Float)
      → p.completed ≡ i
      → NoneFrom i p.world
      → LoopEnded (run_turns py agent env i turns p)
  unfolding run_turns
  LoopEnded-run_turns i [] p c h = λ j l. h j (omega (arith, l, c))
  LoopEnded-run_turns i (turn ∷ turns) p c h =
      LoopEnded-continue_with i turns (run_turn py agent env i turn p) (Ended-run_turn i turn p c h)
        (λ q cq hq. LoopEnded-run_turns (suc i) turns q cq hq)

  -- The same of the answer of a run.
  abbrev pub RunEnded : World S × Attempt (ScenarioResult Float) → Type 0
  RunEnded (w, done r) = NoneFrom (suc r.turns_completed) w
  RunEnded (w, raised e) = Unit

  NoneFrom-cli : (n : ℕ) (v w : World S) → v.cli ≡ w.cli → NoneFrom n v → NoneFrom n w
  NoneFrom-cli n v w e h j l = subst (λ d. is_some (get j d) ≡ false) e (h j l)

  RunEnded-conclude :
      (sandboxed : Bool) (r : Progress S Float × Option String)
      → LoopEnded r
      → RunEnded (conclude py agent env sandboxed r)
  RunEnded-conclude sandboxed (p, none) h =
      NoneFrom-cli (suc p.completed) p.world (clean_up py agent env sandboxed p.world)
        (sym (cli-clean_up py agent env sandboxed p.world)) h
  RunEnded-conclude sandboxed (p, some e) h = tt

  module _ (turns : List (Turn Float)) where
    RunEnded-after_lock :
        (sandboxed : Bool) (lock : Option (Attempt (Unit {0}))) (w : World S)
        → NoneFrom 0 w
        → RunEnded (after_lock py agent env turns sandboxed lock w)
    RunEnded-after_lock sandboxed (some (raised e)) w h = tt
    RunEnded-after_lock sandboxed (some (done _)) w h =
        RunEnded-conclude sandboxed (run_turns py agent env 0 turns (start py agent env w))
          (LoopEnded-run_turns 0 turns (start py agent env w) refl h)
    RunEnded-after_lock sandboxed none w h =
        RunEnded-conclude sandboxed (run_turns py agent env 0 turns (start py agent env w))
          (LoopEnded-run_turns 0 turns (start py agent env w) refl h)

    RunEnded-after_setup :
        (sandboxed : Bool) (w : World S) (r : S × Attempt (Unit {0}))
        → NoneFrom 0 w
        → RunEnded (after_setup py agent env turns sandboxed w r)
    RunEnded-after_setup sandboxed w (s, raised e) h = tt
    RunEnded-after_setup sandboxed w (s, done _) h =
        RunEnded-after_lock sandboxed env.write_lock
          (record_event agent_set_up (record w { agent = s })) h

    RunEnded-after_install :
        (sandboxed : Bool) (install : Option (Attempt (Unit {0}))) (w : World S)
        → NoneFrom 0 w
        → RunEnded (after_install py agent env turns sandboxed install w)
    RunEnded-after_install sandboxed none w h =
        RunEnded-after_setup sandboxed w (agent.setup w.agent) h
    RunEnded-after_install sandboxed (some (done _)) w h =
        RunEnded-after_setup sandboxed w (agent.setup w.agent) h
    RunEnded-after_install sandboxed (some (raised x)) w h =
        let message = concat ("resource install failed: " ∷ x ∷ []) in
        elim env.manager
          as (λ b. RunEnded (
            if b
            then (write_sentinel env.sentinel 0 message w, done (failed py agent env message))
            else set_up py agent env turns sandboxed w)) [
              | true ↦ NoneFrom-write_sentinel env.sentinel 0 message w h
              | false ↦ RunEnded-after_setup sandboxed w (agent.setup w.agent) h
            ]

    RunEnded-with_sandbox :
        (w : World S) (a : Attempt Bool)
        → NoneFrom 0 w
        → RunEnded (with_sandbox py agent env turns w a)
    RunEnded-with_sandbox w (raised x) h =
        let w' = write_sentinel env.sentinel 0 (concat ("sandbox setup failed: " ∷ x ∷ [])) w in
        NoneFrom-cli 1 w' (release py agent env w') (sym (cli-if env.manager released w'))
          (NoneFrom-write_sentinel env.sentinel 0 (concat ("sandbox setup failed: " ∷ x ∷ [])) w h)
    RunEnded-with_sandbox w (done sandboxed) h =
        RunEnded-after_install sandboxed env.install
          (if sandboxed then record_event sandbox_up w else w)
          (NoneFrom-cli 0 w (if sandboxed then record_event sandbox_up w else w)
            (sym (cli-if sandboxed sandbox_up w)) h)

    RunEnded-acquire_workspace :
        (a : Attempt (Unit {0})) (w : World S)
        → NoneFrom 0 w
        → RunEnded (acquire_workspace py agent env turns a w)
    RunEnded-acquire_workspace (raised e) w h = tt
    RunEnded-acquire_workspace (done _) w h =
        RunEnded-with_sandbox (record_event acquired w)
          (build_sandbox py agent env env.validate_profile env.setup_sandbox) h

    -- A run that starts in an empty directory and gives a result leaves no CLI file beyond the turn
    -- after the completed ones.
    pub run_scenario_turns-ended :
        (w : World S) → w.cli ≡ [] → RunEnded (run_scenario_turns py agent env turns w)
    unfolding run_scenario_turns
    run_scenario_turns-ended w e =
        let empty : NoneFrom 0 w = λ j l. ap (λ d. is_some (get j d)) e in
        elim env.manager
          as (λ b. RunEnded (
            if b
            then acquire_workspace py agent env turns env.acquire w
            else with_workspace py agent env turns w)) [
              | true ↦ RunEnded-acquire_workspace env.acquire w empty
              | false ↦
                  RunEnded-with_sandbox w
                    (build_sandbox py agent env env.validate_profile env.setup_sandbox) empty
            ]
