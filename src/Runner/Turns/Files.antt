-- ===== src/Runner/Turns/Files.antt =====
-- The CLI files of the turns, under the writes of a run.
use agent_belt.Prelude.{
  ℕ, suc, ◌≤◌, ◌<◌, ◌≡◌, refl, sym, ◌∙◌, String, Bool, true, false, ◌||◌, Option, none, some, Dict,
  get, put, get-upsert, is_some, nat_eq, nat_beq_iff, ◌==◌, if◌then◌else◌, Bool-cases, inl, inr,
  arith,
}
use agent_belt.Runner.Session.{Event, World, record_event, write_sentinel, put_some}

-- There is a CLI file of the turn.
abbrev pub HasCli : {S : Type 0} → ℕ → World S → Type 0
HasCli i w = is_some (get i w.cli) ≡ true

-- The files below a turn.
abbrev pub HasClis : {S : Type 0} → ℕ → World S → Type 0
HasClis n w = (i : ℕ) → i < n → HasCli i w

pub get-put :
    (i j : ℕ) (text : String) (d : Dict ℕ String)
    → is_some (get j (put i text d)) ≡ (j == i || is_some (get j d))
get-put i j text d = ground (arith, get-upsert i j (λ _. text) d)

pub HasCli-put :
    {S : Type 0} (i j : ℕ) (text : String) (w : World S)
    → HasCli j w
    → HasCli j (record w { cli = put i text w.cli })
HasCli-put i j text w h = get-put i j text w.cli ∙ ground (arith, h)

pub HasCli-put_self :
    {S : Type 0} (i : ℕ) (text : String) (w : World S)
    → HasCli i (record w { cli = put i text w.cli })
HasCli-put_self i text w = get-put i i text w.cli ∙ ground (arith, nat_beq_iff i i)

HasCli-put_some :
    {S : Type 0} (i j : ℕ) (text : Option String) (w : World S)
    → HasCli j w
    → HasCli j (record w { cli = put_some i text w.cli })
HasCli-put_some i j none w h = h
HasCli-put_some i j (some text) w h = HasCli-put i j text w h

HasCli-put_some_self :
    {S : Type 0} (i : ℕ) (text : Option String) (w : World S)
    → is_some text ≡ true
    → HasCli i (record w { cli = put_some i text w.cli })
HasCli-put_some_self i none w h = cc
HasCli-put_some_self i (some text) w h = HasCli-put_self i text w

pub HasCli-write_sentinel :
    {S : Type 0} (text : ℕ → String → Option String) (i j : ℕ) (e : String) (w : World S)
    → HasCli j w
    → HasCli j (write_sentinel text i e w)
HasCli-write_sentinel text i j e w h = elim (Bool-cases (is_some (get i w.cli))) [
  | inl s ↦ rw s h
  | inr s ↦ rw s (HasCli-put_some i j (text i e) w h)
]

pub HasCli-write_sentinel_self :
    {S : Type 0} (text : ℕ → String → Option String) (i : ℕ) (e : String) (w : World S)
    → is_some (text i e) ≡ true
    → HasCli i (write_sentinel text i e w)
HasCli-write_sentinel_self text i e w h = elim (Bool-cases (is_some (get i w.cli))) [
  | inl s ↦ rw s s
  | inr s ↦ rw s (HasCli-put_some_self i (text i e) w h)
]

-- Every turn below the next, where the next one has its file too.
pub HasClis-suc : {S : Type 0} (n : ℕ) (w : World S) → HasClis n w → HasCli n w → HasClis (suc n) w
HasClis-suc n w h k i l = elim (Bool-cases (i == n)) [
  | inl e ↦ rw (sym ((nat_beq_iff i n).0 e)) at k
  | inr e ↦ h i (ground (arith, e, l))
]

pub cli-if :
    {S : Type 0} (b : Bool) (e : Event) (w : World S)
    → (if b then record_event e w else w).cli ≡ w.cli
cli-if true e w = refl
cli-if false e w = refl

pub zero_of_le : (i : ℕ) → i ≤ 0 → 0 ≡ i
zero_of_le i h = omega arith
