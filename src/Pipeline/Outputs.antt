-- ===== src/Pipeline/Outputs.antt =====
-- Which turns left an output, and which have a failed check instead.
use agent_belt.Prelude.{
  ℕ, suc, ◌≡◌, refl, ap, ◌∙◌, String, Bool, true, false, ◌&&◌, ◌||◌, Option, none, some, List, [],
  ◌∷◌, all, is_empty, string_eq,
}
use agent_belt.Entities.{TurnOutput}
use agent_belt.Payloads.{CheckEntry}
use agent_belt.Runner.Session.{Attempt, done, raised}
use agent_belt.Pipeline.{TurnFiles, load_turn, from_cli, add_load, load_turns}

abbrev pub is_done : {A : Type 0} → Option (Attempt A) → Bool
is_done (some (done a)) = true
is_done _ = false

-- The turn left an output that can be parsed or a CLI output that can be read.
abbrev pub left_output : {F : Type 0} → TurnFiles F → Bool
left_output files = is_done files.output || is_done files.cli

-- A turn is without a check exactly when it left an output.
is_empty-from_cli :
    {F : Type 0} (str_nat : ℕ → String) (i : ℕ) (files : TurnFiles F)
    (cli : Option (Attempt String)) (rest : List (TurnOutput F) × List CheckEntry)
    → is_empty (add_load (from_cli str_nat i files cli) rest).1 ≡ (is_done cli && is_empty rest.1)
is_empty-from_cli str_nat i files none rest = refl
is_empty-from_cli str_nat i files (some (raised e)) rest = refl
is_empty-from_cli str_nat i files (some (done text)) rest = refl

is_empty-load_turn :
    {F : Type 0} (str_nat : ℕ → String) (i : ℕ) (files : TurnFiles F)
    (output : Option (Attempt (TurnOutput F))) (rest : List (TurnOutput F) × List CheckEntry)
    → is_empty (add_load (load_turn str_nat i files output) rest).1
      ≡ ((is_done output || is_done files.cli) && is_empty rest.1)
is_empty-load_turn str_nat i files none rest = is_empty-from_cli str_nat i files files.cli rest
is_empty-load_turn str_nat i files (some (raised e)) rest =
    is_empty-from_cli str_nat i files files.cli rest
is_empty-load_turn str_nat i files (some (done o)) rest = refl

pub is_empty-load_turns :
    {F : Type 0} (str_nat : ℕ → String) (i : ℕ) (files : List (TurnFiles F))
    → is_empty (load_turns str_nat i files).1 ≡ all left_output files
unfolding load_turns
is_empty-load_turns str_nat i [] = refl
is_empty-load_turns str_nat i (f ∷ files) =
    is_empty-load_turn str_nat i f f.output (load_turns str_nat (suc i) files)
    ∙ ap (λ b. left_output f && b) (is_empty-load_turns str_nat (suc i) files)
