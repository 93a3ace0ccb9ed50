-- ===== src/Json.antt =====
-- JSON values, as Python holds them after parsing (the `Any` of src/belt/entities.py).
use agent_belt.Prelude.{String, Bool}
use agent_belt.Prelude.Int.{ℤ}

mutual
  pub data Value (F : Type 0) : Type 0 where
    null : Value F
    bool : Bool → Value F
    int : ℤ → Value F
    float : F → Value F
    str : String → Value F
    arr : Items F → Value F
    obj : Fields F → Value F

  pub data Items (F : Type 0) : Type 0 where
    nil : Items F
    cons : Value F → Items F → Items F

  pub data Fields (F : Type 0) : Type 0 where
    end : Fields F
    field : String → Value F → Fields F → Fields F
