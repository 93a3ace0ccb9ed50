-- ===== src/Runner/Turns/Reached.antt =====
-- How far a run gets, and what it leaves for the scorers.
use agent_belt.Prelude.{
  ℕ, suc, ◌+◌, ◌≤◌, ◌<◌, ◌≡◌, refl, sym, ap, ◌∙◌, String, Bool, true, false, Option, none, some,
  List, [], ◌∷◌, get, put, is_some, length, nat_eq, if◌then◌else◌, concat, arith,
}
use agent_belt.Python.{Python}
use agent_belt.Entities.{TurnOutput, Turn}
use mathlib.Core.Path.{subst}
use agent_belt.Runner.Turns.Files.{
  HasCli, HasClis, HasCli-put, HasCli-put_self, HasCli-write_sentinel, HasCli-write_sentinel_self,
  HasClis-suc, cli-if, zero_of_le,
}
use agent_belt.Runner.Turns.{
  failed, release, execute_turn, execute_rendered, after_execute, after_turn, fetched, write_turn,
  run_turn, run_turns, continue_with, clean_up, conclude, start, after_lock, after_setup, set_up,
  after_install, with_sandbox, with_workspace, acquire_workspace, run_scenario_turns, build_sandbox,
}
use agent_belt.Runner.Session.{
  agent_set_up, agent_torn_down, sandbox_up, sandbox_down, acquired, released, Attempt, done,
  raised, World, Agent, Surroundings, Progress, Loop, next, break, propagate, record_event,
  write_sentinel, ScenarioResult,
}

module _ (py : Python) {S : Type 0} (agent : Agent S (Python.Float py))
    (env : Surroundings (Python.Float py)) where
  open py use {Float}

  cli-after_execute :
      (i : ℕ) (m : String) (w : World S) (r : S × Attempt String)
      → (after_execute py agent env i m w r).0.cli ≡ w.cli
  cli-after_execute i m w (s, a) = refl

  cli-execute_rendered :
      (i : ℕ) (turn : Turn Float) (o : Attempt (Unit {0})) (m : String) (w : World S)
      → (execute_rendered py agent env i turn o m w).0.cli ≡ w.cli
  cli-execute_rendered i turn (raised e) m w = refl
  cli-execute_rendered i turn (done _) m w =
      cli-after_execute i m w (agent.execute m turn.flags w.agent)

  pub cli-execute_turn :
      (i : ℕ) (turn : Turn Float) (m : Attempt String) (w : World S)
      → (execute_turn py agent env i turn m w).0.cli ≡ w.cli
  cli-execute_turn i turn (raised e) w = refl
  cli-execute_turn i turn (done m) w = cli-execute_rendered i turn (env.open_stream i) m w

  HasClis-fetched :
      (n i : ℕ) (raw : String) (w : World S) (r : S × Attempt (TurnOutput Float))
      → HasClis n w
      → HasClis n (fetched py agent env i raw w r).0
  HasClis-fetched n i raw w (s, done o) h j l = h j l
  HasClis-fetched n i raw w (s, raised e) h j l =
      HasCli-write_sentinel env.sentinel i j (concat ("fetch_results error: " ∷ e ∷ []))
        (record w { agent = s }) (h j l)

  -- The sentinels can be written.
  abbrev pub Sentinels : Type 0
  Sentinels = (i : ℕ) (e : String) → is_some (env.sentinel i e) ≡ true

  -- How a turn leaves the files, where it goes on or stops.
  abbrev Reached : ℕ → Loop S Float → Type 0
  Reached i (next q) = (q.completed ≡ suc i) × HasClis (suc i) q.world
  Reached i (break q) = (q.completed ≡ i) × HasClis (suc i) q.world
  Reached i (propagate e q) = Unit

  Reached-write_turn :
      (a : Attempt (Unit {0})) (i : ℕ) (o : TurnOutput Float) (p : Progress S Float)
      → p.completed ≡ i
      → HasClis i p.world
      → Reached i (write_turn py agent env a i o p)
  Reached-write_turn (raised e) i o p c h = tt
  Reached-write_turn (done _) i o p c h = (
    omega (arith, c),
    HasClis-suc i (record (p.world) { cli = put i o.raw_cli (p.world.cli) })
        (λ j l. HasCli-put i j o.raw_cli p.world (h j l)) (HasCli-put_self i o.raw_cli p.world),
  )

  Reached-after_turn :
      Sentinels
      → (i : ℕ) (turn : Turn Float) (p : Progress S Float) (r : World S × Attempt String)
      → p.completed ≡ i
      → HasClis i r.0
      → Reached i (after_turn py agent env i turn p r)
  Reached-after_turn k i turn p (w, raised e) c h = (
    c,
    HasClis-suc i (write_sentinel env.sentinel i e w)
        (λ j l. HasCli-write_sentinel env.sentinel i j e w (h j l))
        (HasCli-write_sentinel_self env.sentinel i e w (k i e)),
  )
  Reached-after_turn k i turn p (w, done raw) c h =
      Reached-write_turn (env.write_artifacts i) i _ _ c
        (HasClis-fetched i i raw w (agent.fetch_results raw w.agent) h)

  Reached-run_turn :
      Sentinels
      → (i : ℕ) (turn : Turn Float) (p : Progress S Float) → p.completed ≡ i
      → HasClis i p.world
      → Reached i (run_turn py agent env i turn p)
  unfolding run_turn
  Reached-run_turn k i turn p c h =
      let message = env.render turn.message p.outputs in
      Reached-after_turn k i turn p (execute_turn py agent env i turn message p.world) c
        (λ j l. ap (λ d. is_some (get j d)) (cli-execute_turn i turn message p.world) ∙ h j l)

  -- How the loop leaves them, where no exception leaves it: `n` is the number of all turns.
  abbrev pub Reported : ℕ → ℕ → World S → Type 0
  Reported n completed w = (completed ≤ n) × ((i : ℕ) → i ≤ completed → i < n → HasCli i w)

  abbrev LoopReported : ℕ → Progress S Float × Option String → Type 0
  LoopReported n (p, none) = Reported n p.completed p.world
  LoopReported n (p, some e) = Unit

  LoopReported-continue_with :
      (i n : ℕ) (turns : List (Turn Float)) (l : Loop S Float)
      → n ≡ suc i + length turns
      → Reached i l
      → ((q : Progress S Float)
          → q.completed ≡ suc i
          → HasClis (suc i) q.world
          → LoopReported n (run_turns py agent env (suc i) turns q))
      → LoopReported n (continue_with py agent env i turns l)
  LoopReported-continue_with i n turns (next q) e r ih = ih q r.0 r.1
  LoopReported-continue_with i n turns (break q) e r ih =
      (omega (arith, r.0), λ j l m. r.1 j (omega (arith, r.0)))
  LoopReported-continue_with i n turns (propagate x q) e r ih = tt

  LoopReported-run_turns :
      Sentinels
      → (i n : ℕ) (turns : List (Turn Float)) (p : Progress S Float) → n ≡ i + length turns
      → p.completed ≡ i
      → HasClis i p.world
      → LoopReported n (run_turns py agent env i turns p)
  unfolding run_turns
  LoopReported-run_turns k i n [] p e c h =
      (omega (arith, e, c), λ j l m. h j (omega (arith, e, c)))
  LoopReported-run_turns k i n (turn ∷ turns) p e c h =
      LoopReported-continue_with i n turns (run_turn py agent env i turn p) (omega (arith, e))
        (Reached-run_turn k i turn p c h)
        (λ q cq hq. LoopReported-run_turns k (suc i) n turns q (omega (arith, e)) cq hq)

  -- The same of the answer of a run.
  abbrev pub IsReported : ℕ → World S × Attempt (ScenarioResult Float) → Type 0
  IsReported n (w, done r) = Reported n r.turns_completed w
  IsReported n (w, raised e) = Unit

  Reported-cli : (n c : ℕ) (v w : World S) → v.cli ≡ w.cli → Reported n c v → Reported n c w
  Reported-cli n c v w e h = (h.0, λ i l m. subst (λ d. is_some (get i d) ≡ true) e (h.1 i l m))

  pub cli-clean_up :
      (sandboxed : Bool) (w : World S) → (clean_up py agent env sandboxed w).cli ≡ w.cli
  cli-clean_up sandboxed w =
      let torn = record_event agent_torn_down (record w { agent = agent.teardown w.agent }) in
      cli-if env.manager released (if sandboxed then record_event sandbox_down torn else torn)
      ∙ cli-if sandboxed sandbox_down torn

  IsReported-conclude :
      (n : ℕ) (sandboxed : Bool) (r : Progress S Float × Option String)
      → LoopReported n r
      → IsReported n (conclude py agent env sandboxed r)
  IsReported-conclude n sandboxed (p, none) h =
      Reported-cli n p.completed p.world (clean_up py agent env sandboxed p.world)
        (sym (cli-clean_up sandboxed p.world)) h
  IsReported-conclude n sandboxed (p, some e) h = tt

  IsReported-failed :
      (n : ℕ) (e m : String) (w : World S)
      → HasCli 0 w
      → IsReported n (w, done (failed py agent env m))
  IsReported-failed n e m w h = (omega arith, λ i l k. subst (λ j. HasCli j w) (zero_of_le i l) h)

  module _ (turns : List (Turn Float)) where
    IsReported-loop_end :
        Sentinels
        → (sandboxed : Bool) (w : World S)
        → IsReported (length turns) (
            conclude py agent env sandboxed (run_turns py agent env 0 turns (start py agent env w)))
    IsReported-loop_end k sandboxed w =
        let begun = start py agent env w in
        IsReported-conclude (length turns) sandboxed (run_turns py agent env 0 turns begun) (
          LoopReported-run_turns k 0 (length turns) turns begun (omega arith) refl
            (λ i l. absurd (omega (arith, l))))

    IsReported-after_lock :
        Sentinels
        → (sandboxed : Bool) (lock : Option (Attempt (Unit {0}))) (w : World S)
        → IsReported (length turns) (after_lock py agent env turns sandboxed lock w)
    IsReported-after_lock k sandboxed (some (raised e)) w = tt
    IsReported-after_lock k sandboxed (some (done _)) w = IsReported-loop_end k sandboxed w
    IsReported-after_lock k sandboxed none w = IsReported-loop_end k sandboxed w

    IsReported-after_setup :
        Sentinels
        → (sandboxed : Bool) (w : World S) (r : S × Attempt (Unit {0}))
        → IsReported (length turns) (after_setup py agent env turns sandboxed w r)
    IsReported-after_setup k sandboxed w (s, raised e) = tt
    IsReported-after_setup k sandboxed w (s, done _) =
        IsReported-after_lock k sandboxed env.write_lock
          (record_event agent_set_up (record w { agent = s }))

    IsReported-after_install :
        Sentinels
        → (sandboxed : Bool) (install : Option (Attempt (Unit {0}))) (w : World S)
        → IsReported (length turns) (after_install py agent env turns sandboxed install w)
    IsReported-after_install k sandboxed none w =
        IsReported-after_setup k sandboxed w (agent.setup w.agent)
    IsReported-after_install k sandboxed (some (done _)) w =
        IsReported-after_setup k sandboxed w (agent.setup w.agent)
    IsReported-after_install k sandboxed (some (raised x)) w =
        let message = concat ("resource install failed: " ∷ x ∷ []) in
        elim env.manager
          as (λ b. IsReported (length turns) (
            if b
            then (write_sentinel env.sentinel 0 message w, done (failed py agent env message))
            else set_up py agent env turns sandboxed w)) [
              | true ↦
                  IsReported-failed (length turns) x message
                    (write_sentinel env.sentinel 0 message w)
                    (HasCli-write_sentinel_self env.sentinel 0 message w (k 0 message))
              | false ↦ IsReported-after_setup k sandboxed w (agent.setup w.agent)
            ]

    IsReported-with_sandbox :
        Sentinels
        → (w : World S) (a : Attempt Bool)
        → IsReported (length turns) (with_sandbox py agent env turns w a)
    IsReported-with_sandbox k w (raised x) =
        let message = concat ("sandbox setup failed: " ∷ x ∷ []) in
        let w' = write_sentinel env.sentinel 0 message w in
        IsReported-failed (length turns) x message (release py agent env w') (
          ap (λ d. is_some (get 0 d)) (cli-if env.manager released w')
          ∙ HasCli-write_sentinel_self env.sentinel 0 message w (k 0 message))
    IsReported-with_sandbox k w (done sandboxed) =
        IsReported-after_install k sandboxed env.install
          (if sandboxed then record_event sandbox_up w else w)

    IsReported-acquire_workspace :
        Sentinels
        → (a : Attempt (Unit {0})) (w : World S)
        → IsReported (length turns) (acquire_workspace py agent env turns a w)
    IsReported-acquire_workspace k (raised e) w = tt
    IsReported-acquire_workspace k (done _) w =
        IsReported-with_sandbox k (record_event acquired w)
          (build_sandbox py agent env env.validate_profile env.setup_sandbox)

    -- A run that gives a result has completed at most all turns, and leaves a CLI file for each
    -- completed turn and for the turn after them, if there is one: a turn that failed, or a scenario
    -- that could not begin, is there for the scorers to see. The sentinels can be written.
    pub run_scenario_turns-IsReported :
        Sentinels
        → (w : World S) → IsReported (length turns) (run_scenario_turns py agent env turns w)
    unfolding run_scenario_turns
    run_scenario_turns-IsReported k w =
        elim env.manager
          as (λ b. IsReported (length turns) (
            if b
            then acquire_workspace py agent env turns env.acquire w
            else with_workspace py agent env turns w)) [
              | true ↦ IsReported-acquire_workspace k env.acquire w
              | false ↦
                  IsReported-with_sandbox k w
                    (build_sandbox py agent env env.validate_profile env.setup_sandbox)
            ]
