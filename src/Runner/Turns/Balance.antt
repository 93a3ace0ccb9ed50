-- ===== src/Runner/Turns/Balance.antt =====
-- Logs in which each thing opened is closed as often.
use agent_belt.Prelude.{
  ℕ, ◌≡◌, refl, sym, ◌∙◌, String, Bool, true, false, Option, none, some, List, [], ◌∷◌, ◌++◌,
  count_if, if◌then◌else◌,
}
use mathlib.Core.List.{append-nil}
use agent_belt.Runner.Session.{
  Attempt, done, raised, Event, acquired, released, sandbox_up, sandbox_down, agent_set_up,
  agent_torn_down, executed, World, record_event,
}

abbrev pub has_raised : {A : Type 0} → Attempt A → Bool
has_raised (raised e) = true
has_raised (done a) = false

-- A call that is made, and raises.
abbrev pub call_raised : Option (Attempt (Unit {0})) → Bool
call_raised none = false
call_raised (some a) = has_raised a

abbrev pub is_acquired : Event → Bool
is_acquired acquired = true
is_acquired _ = false

abbrev pub is_released : Event → Bool
is_released released = true
is_released _ = false

abbrev pub is_sandbox_up : Event → Bool
is_sandbox_up sandbox_up = true
is_sandbox_up _ = false

abbrev pub is_sandbox_down : Event → Bool
is_sandbox_down sandbox_down = true
is_sandbox_down _ = false

abbrev pub is_set_up : Event → Bool
is_set_up agent_set_up = true
is_set_up _ = false

abbrev pub is_torn_down : Event → Bool
is_torn_down agent_torn_down = true
is_torn_down _ = false

-- Each thing opened is closed as often.
pub record IsBalanced (log : List Event) : Type 0 where
  pub workspaces : count_if is_acquired log ≡ count_if is_released log
  pub sandboxes : count_if is_sandbox_up log ≡ count_if is_sandbox_down log
  pub agents : count_if is_set_up log ≡ count_if is_torn_down log

-- A recorded event under a test.
abbrev pub one_if : Bool → Event → List Event
one_if b e = if b then e ∷ [] else []

abbrev pub opening : (manager sandboxed : Bool) → List Event
opening manager sandboxed = one_if manager acquired ++ one_if sandboxed sandbox_up

abbrev pub closing : (manager sandboxed : Bool) → List Event
closing manager sandboxed =
    agent_torn_down ∷ (one_if sandboxed sandbox_down ++ one_if manager released)

pub log-if :
    {S : Type 0} (b : Bool) (e : Event) (w : World S)
    → (if b then record_event e w else w).log ≡ w.log ++ one_if b e
log-if true e w = refl
log-if false e w = sym (append-nil w.log)

matched : (m b : Bool) → IsBalanced (opening m b ++ agent_set_up ∷ closing m b)
matched true true = record { workspaces = refl; sandboxes = refl; agents = refl }
matched true false = record { workspaces = refl; sandboxes = refl; agents = refl }
matched false true = record { workspaces = refl; sandboxes = refl; agents = refl }
matched false false = record { workspaces = refl; sandboxes = refl; agents = refl }

pub only_workspace : (m : Bool) → IsBalanced (one_if m acquired ++ one_if m released)
only_workspace true = record { workspaces = refl; sandboxes = refl; agents = refl }
only_workspace false = record { workspaces = refl; sandboxes = refl; agents = refl }

-- What is opened and closed so, with turns in between, is balanced.
pub balanced :
    (manager sandboxed : Bool) (log : List Event)
    → ((kind : Event → Bool)
        → ((i : ℕ) (m : String) → kind (executed i m) ≡ false)
        → count_if kind log
          ≡ count_if kind (opening manager sandboxed ++ agent_set_up ∷ closing manager sandboxed))
    → IsBalanced log
balanced m b log h = record {
  workspaces =
      h is_acquired (λ i t. refl) ∙ (matched m b).workspaces ∙ sym (h is_released (λ i t. refl));
  sandboxes =
      h is_sandbox_up (λ i t. refl)
      ∙ (matched m b).sandboxes
      ∙ sym (h is_sandbox_down (λ i t. refl));
  agents = h is_set_up (λ i t. refl) ∙ (matched m b).agents ∙ sym (h is_torn_down (λ i t. refl));
}
