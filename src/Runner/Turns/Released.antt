-- ===== src/Runner/Turns/Released.antt =====
-- What a run opens, it closes: the workspace, the sandbox and the agent.
use agent_belt.Prelude.{if_true, if_false}
use agent_belt.Prelude.{
  ℕ, suc, ◌≡◌, refl, sym, ap, ◌∙◌, String, Bool, true, false, ◌&&◌, Option, none, some, List, [],
  ◌∷◌, ◌++◌, count_if, count_if-append, concat, if◌then◌else◌, Bool-cases, inl, inr, arith,
}
use mathlib.Core.List.{append_assoc, append-nil}
use mathlib.Core.Path.{subst}
use agent_belt.Python.{Python}
use agent_belt.Entities.{TurnOutput, Turn}
use agent_belt.Runner.Turns.Balance.{
  has_raised, call_raised, IsBalanced, one_if, opening, closing, log-if, balanced, only_workspace,
}
use agent_belt.Runner.Turns.{
  execute_turn, execute_rendered, after_execute, after_turn, fetched, write_turn, run_turn,
  run_turns, continue_with, clean_up, conclude, start, after_lock, after_setup, set_up,
  after_install, with_sandbox, acquire_workspace, run_scenario_turns, build_sandbox, sentinel_at,
}
use agent_belt.Runner.Session.{
  Attempt, done, raised, Event, acquired, released, sandbox_up, sandbox_down, agent_set_up,
  agent_torn_down, executed, World, Agent, Surroundings, Progress, Loop, next, break, propagate,
  record_event, ScenarioResult,
}

module _ (py : Python) {S : Type 0} (agent : Agent S (Python.Float py))
    (env : Surroundings (Python.Float py)) where
  open py use {Float}

  abbrev progress_of : Loop S Float → Progress S Float
  progress_of (next p) = p
  progress_of (break p) = p
  progress_of (propagate e p) = p

  -- A kind of event that no turn records.
  module _ (kind : Event → Bool) (never : (i : ℕ) (m : String) → kind (executed i m) ≡ false) where
    count-after_execute :
        (i : ℕ) (m : String) (w : World S) (r : S × Attempt String)
        → count_if kind ((after_execute py agent env i m w r).0.log) ≡ count_if kind w.log
    count-after_execute i m w (s, a) =
        rw (count_if-append kind w.log (executed i m ∷ []), never i m) (omega arith)

    count-execute_rendered :
        (i : ℕ) (turn : Turn Float) (o : Attempt (Unit {0})) (m : String) (w : World S)
        → count_if kind ((execute_rendered py agent env i turn o m w).0.log) ≡ count_if kind w.log
    count-execute_rendered i turn (raised e) m w = refl
    count-execute_rendered i turn (done _) m w =
        count-after_execute i m w (agent.execute m turn.flags w.agent)

    count-execute_turn :
        (i : ℕ) (turn : Turn Float) (m : Attempt String) (w : World S)
        → count_if kind ((execute_turn py agent env i turn m w).0.log) ≡ count_if kind w.log
    count-execute_turn i turn (raised e) w = refl
    count-execute_turn i turn (done m) w = count-execute_rendered i turn (env.open_stream i) m w

    log-fetched :
        (i : ℕ) (raw : String) (w : World S) (r : S × Attempt (TurnOutput Float))
        → (fetched py agent env i raw w r).0.log ≡ w.log
    log-fetched i raw w (s, done o) = refl
    log-fetched i raw w (s, raised e) = refl

    log-write_turn :
        (a : Attempt (Unit {0})) (i : ℕ) (o : TurnOutput Float) (p : Progress S Float)
        → (progress_of (write_turn py agent env a i o p)).world.log ≡ p.world.log
    log-write_turn (raised e) i o p = refl
    log-write_turn (done _) i o p = refl

    log-after_turn :
        (i : ℕ) (turn : Turn Float) (p : Progress S Float) (r : World S × Attempt String)
        → (progress_of (after_turn py agent env i turn p r)).world.log ≡ r.0.log
    log-after_turn i turn p (w, raised e) = refl
    log-after_turn i turn p (w, done raw) =
        log-write_turn (env.write_artifacts i) i _ _
        ∙ log-fetched i raw w (agent.fetch_results raw w.agent)

    count-run_turn :
        (i : ℕ) (turn : Turn Float) (p : Progress S Float)
        → count_if kind ((progress_of (run_turn py agent env i turn p)).world.log)
          ≡ count_if kind p.world.log
    unfolding run_turn
    count-run_turn i turn p =
        ap (count_if kind) (
          log-after_turn i turn p
            (execute_turn py agent env i turn (env.render turn.message p.outputs) p.world))
        ∙ count-execute_turn i turn (env.render turn.message p.outputs) p.world

    count-loop :
        (i : ℕ) (turns : List (Turn Float)) (l : Loop S Float)
        → ((q : Progress S Float)
            → count_if kind ((run_turns py agent env (suc i) turns q).0.world.log)
              ≡ count_if kind q.world.log)
        → count_if kind ((continue_with py agent env i turns l).0.world.log)
          ≡ count_if kind (progress_of l).world.log
    count-loop i turns (next q) ih = ih q
    count-loop i turns (break q) ih = refl
    count-loop i turns (propagate e q) ih = refl

    count-run_turns :
        (i : ℕ) (turns : List (Turn Float)) (p : Progress S Float)
        → count_if kind ((run_turns py agent env i turns p).0.world.log) ≡ count_if kind p.world.log
    unfolding run_turns
    count-run_turns i [] p = refl
    count-run_turns i (turn ∷ turns) p =
        count-loop i turns (run_turn py agent env i turn p) (count-run_turns (suc i) turns)
        ∙ count-run_turn i turn p

  log-clean_up :
      (sandboxed : Bool) (w : World S)
      → (clean_up py agent env sandboxed w).log ≡ w.log ++ closing env.manager sandboxed
  log-clean_up sandboxed w =
      let torn = record_event agent_torn_down (record w { agent = agent.teardown w.agent }) in
      log-if env.manager released (if sandboxed then record_event sandbox_down torn else torn)
      ∙ ap (λ l. l ++ one_if env.manager released) (log-if sandboxed sandbox_down torn)
      ∙ append_assoc (w.log ++ agent_torn_down ∷ []) (one_if sandboxed sandbox_down)
          (one_if env.manager released)
      ∙ append_assoc w.log (agent_torn_down ∷ [])
          (one_if sandboxed sandbox_down ++ one_if env.manager released)

  log-conclude :
      (sandboxed : Bool) (r : Progress S Float × Option String)
      → (conclude py agent env sandboxed r).0.log ≡ r.0.world.log ++ closing env.manager sandboxed
  log-conclude sandboxed (p, some e) = log-clean_up sandboxed p.world
  log-conclude sandboxed (p, none) = log-clean_up sandboxed p.world

  count-loop_end :
      (kind : Event → Bool)
      → ((i : ℕ) (m : String) → kind (executed i m) ≡ false)
      → (turns : List (Turn Float)) (sandboxed : Bool) (w : World S)
      → count_if kind (
          (conclude py agent env sandboxed
            (run_turns py agent env 0 turns (start py agent env w))).0.log)
        ≡ count_if kind (w.log ++ closing env.manager sandboxed)
  count-loop_end kind never turns sandboxed w =
      let r = run_turns py agent env 0 turns (start py agent env w) in
      omega (
        arith,
        ap (count_if kind) (log-conclude sandboxed r),
        count_if-append kind r.0.world.log (closing env.manager sandboxed),
        count-run_turns kind never 0 turns (start py agent env w),
        count_if-append kind w.log (closing env.manager sandboxed),
      )

  count-after_lock :
      (kind : Event → Bool)
      → ((i : ℕ) (m : String) → kind (executed i m) ≡ false)
      → (turns : List (Turn Float)) (sandboxed : Bool) (lock : Option (Attempt (Unit {0})))
        (w : World S)
      → call_raised lock ≡ false
      → count_if kind ((after_lock py agent env turns sandboxed lock w).0.log)
        ≡ count_if kind (w.log ++ closing env.manager sandboxed)
  count-after_lock kind never turns sandboxed (some (raised e)) w h = cc
  count-after_lock kind never turns sandboxed (some (done _)) w h =
      count-loop_end kind never turns sandboxed w
  count-after_lock kind never turns sandboxed none w h = count-loop_end kind never turns sandboxed w

  count-after_setup :
      (kind : Event → Bool)
      → ((i : ℕ) (m : String) → kind (executed i m) ≡ false)
      → (turns : List (Turn Float)) (sandboxed : Bool) (w : World S) (r : S × Attempt (Unit {0}))
      → has_raised r.1 ≡ false
      → call_raised env.write_lock ≡ false
      → count_if kind ((after_setup py agent env turns sandboxed w r).0.log)
        ≡ count_if kind (w.log ++ agent_set_up ∷ closing env.manager sandboxed)
  count-after_setup kind never turns sandboxed w (s, raised e) h k = cc
  count-after_setup kind never turns sandboxed w (s, done _) h k =
      let begun = record_event agent_set_up (record w { agent = s }) in
      omega (
        arith,
        count-after_lock kind never turns sandboxed env.write_lock begun k,
        count_if-append kind begun.log (closing env.manager sandboxed),
        count_if-append kind w.log (agent_set_up ∷ []),
        count_if-append kind w.log (agent_set_up ∷ closing env.manager sandboxed),
        count_if-append kind (agent_set_up ∷ []) (closing env.manager sandboxed),
      )

  module _ (turns : List (Turn Float)) where
    set_up-IsBalanced :
        (sandboxed : Bool) (w : World S)
        → w.log ≡ opening env.manager sandboxed
        → has_raised ((agent.setup w.agent).1) ≡ false
        → call_raised env.write_lock ≡ false
        → IsBalanced (set_up py agent env turns sandboxed w).0.log
    set_up-IsBalanced sandboxed w e h k =
        balanced env.manager sandboxed ((set_up py agent env turns sandboxed w).0.log)
          (λ kind never.
            count-after_setup kind never turns sandboxed w (agent.setup w.agent) h k
            ∙ ap (λ l. count_if kind (l ++ agent_set_up ∷ closing env.manager sandboxed)) e)

    after_install-IsBalanced :
        (sandboxed : Bool) (install : Option (Attempt (Unit {0}))) (w : World S)
        → w.log ≡ opening env.manager sandboxed
        → (env.manager && call_raised install) ≡ false
        → has_raised ((agent.setup w.agent).1) ≡ false
        → call_raised env.write_lock ≡ false
        → IsBalanced (after_install py agent env turns sandboxed install w).0.log
    after_install-IsBalanced sandboxed none w e i h k = set_up-IsBalanced sandboxed w e h k
    after_install-IsBalanced sandboxed (some (done _)) w e i h k =
        set_up-IsBalanced sandboxed w e h k
    after_install-IsBalanced sandboxed (some (raised x)) w e i h k =
        subst (λ r. IsBalanced (r.0.log))
          (sym (if_false env.manager _ (set_up py agent env turns sandboxed w) (ground (arith, i))))
          (set_up-IsBalanced sandboxed w e h k)

    with_sandbox-IsBalanced :
        (w : World S) (a : Attempt Bool)
        → w.log ≡ one_if env.manager acquired
        → (env.manager && call_raised env.install) ≡ false
        → has_raised ((agent.setup w.agent).1) ≡ false
        → call_raised env.write_lock ≡ false
        → IsBalanced (with_sandbox py agent env turns w a).0.log
    with_sandbox-IsBalanced w (raised x) e i h k =
        subst IsBalanced
          (sym (
            log-if env.manager released
              (sentinel_at py agent env 0 (concat ("sandbox setup failed: " ∷ x ∷ [])) w)
            ∙ ap (λ l. l ++ one_if env.manager released) e))
          (only_workspace env.manager)
    with_sandbox-IsBalanced w (done true) e i h k =
        after_install-IsBalanced true env.install (record_event sandbox_up w)
          (ap (λ l. l ++ sandbox_up ∷ []) e) i h k
    with_sandbox-IsBalanced w (done false) e i h k =
        after_install-IsBalanced false env.install w
          (e ∙ sym (append-nil (one_if env.manager acquired))) i h k

    acquire_workspace-IsBalanced :
        (a : Attempt (Unit {0})) (w : World S)
        → w.log ≡ []
        → env.manager ≡ true
        → (env.manager && call_raised env.install) ≡ false
        → has_raised ((agent.setup w.agent).1) ≡ false
        → call_raised env.write_lock ≡ false
        → IsBalanced (acquire_workspace py agent env turns a w).0.log
    acquire_workspace-IsBalanced (raised x) w e m i h k =
        subst IsBalanced (sym e) (record { workspaces = refl; sandboxes = refl; agents = refl })
    acquire_workspace-IsBalanced (done _) w e m i h k =
        with_sandbox-IsBalanced (record_event acquired w)
          (build_sandbox py agent env env.validate_profile env.setup_sandbox)
          (ap (λ l. l ++ acquired ∷ []) e ∙ ap (λ b. one_if b acquired) (sym m)) i h k

    -- A run that starts with an empty log tears the agent down as often as it sets it up, and
    -- likewise for the sandbox and the workspace, on every path: whatever the turns, the artifacts
    -- or the set-up of the sandbox raise. Excepted are three paths: the resources cannot be
    -- installed in an isolated workspace, the agent's `setup` raises, or the locks of the resources
    -- cannot be written.
    pub run_scenario_turns-IsBalanced :
        (w : World S)
        → w.log ≡ []
        → (env.manager && call_raised env.install) ≡ false
        → has_raised ((agent.setup w.agent).1) ≡ false
        → call_raised env.write_lock ≡ false
        → IsBalanced (run_scenario_turns py agent env turns w).0.log
    unfolding run_scenario_turns
    run_scenario_turns-IsBalanced w e i h k = elim (Bool-cases env.manager) [
      | inl m ↦
          subst (λ (r : World S × Attempt (ScenarioResult Float)). IsBalanced (r.0.log))
            (sym (if_true env.manager _ _ m)) (acquire_workspace-IsBalanced env.acquire w e m i h k)
      | inr m ↦
          subst (λ (r : World S × Attempt (ScenarioResult Float)). IsBalanced (r.0.log))
            (sym (if_false env.manager _ _ m))
            (with_sandbox-IsBalanced w
              (build_sandbox py agent env env.validate_profile env.setup_sandbox)
              (e ∙ ap (λ b. one_if b acquired) (sym m)) i h k)
    ]
