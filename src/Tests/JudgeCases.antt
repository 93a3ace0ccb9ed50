-- ===== src/Tests/JudgeCases.antt =====
-- A judge whose first headers are refused and whose second ones work, and its dimensions.
use agent_belt.Prelude.{
  ◌++◌, ℕ, zero, suc, ◌≤◌, ◌≡◌, ◌⊎◌, refl, String, Bool, true, false, none, some, List, [], ◌∷◌,
  get, if◌then◌else◌, ◌==◌, nat_eq, string_eq, All, arith,
}
use agent_belt.Levels.{high}
use agent_belt.Payloads.{UsageStats, timeout}
use agent_belt.Cache.{Disk, ScoreCache}
use agent_belt.Judge.Truncate.{
  Section, truncate_to_budget, truncate_section, total_len, marker, digits,
}
use agent_belt.Judge.Truncate.Budget.{truncate_to_budget-bounded, floors}
use agent_belt.Judge.Call.{
  ok, status, Outcome, answered, infra_error, fatal, CallState, Judge, default_classify_error,
  call_api,
}
use agent_belt.Judge.Call.Posts.{AskedAtMost-call_api, AskedAtMost, TriesAtMost}
use agent_belt.Judge.Call.Remembered.{call_api-IsRemembered, IsRemembered, Storable}
use agent_belt.Judge.Dimensions.{
  Kind, binary, ternary, DimensionDef, ScoringStrategy, build_schema, add_dimensions,
  effective_strategy_for_turn, dimension_names,
}
use agent_belt.Judge.Dimensions.Scales.{build_schema-HasScale, HasScale}
use agent_belt.Judge.PerTurn.{score_per_turn}
use agent_belt.Judge.Tally.{JudgeVerdict, isolated, Question}
use agent_belt.Judge.PerTurn.Verdicts.{score_per_turn-IsHonest, Honest}
use agent_belt.Tests.Samples.{verdict}

abbrev filled : ℕ → List ℕ
filled zero = []
filled (suc n) = 7 ∷ filled n

abbrev sample_sections : List Section
sample_sections =
    record { header = 1 ∷ []; content = filled 60; keep_tail = true }
    ∷ record { header = 2 ∷ []; content = filled 50; keep_tail = false }
    ∷ []

truncate_to_budget-bounded_example :
    (total_len (truncate_to_budget sample_sections 95) ≤ 95)
    ⊎ (total_len (truncate_to_budget sample_sections 95) ≤ floors sample_sections)
truncate_to_budget-bounded_example = truncate_to_budget-bounded sample_sections 95 (omega arith)

-- With no room beside the notice the tail of a text is all of it.
whole_tail : truncate_section (filled 30) 25 true ≡ marker 5 ++ filled 30
unfolding truncate_section digits
whole_tail = refl

-- With no room for the notice only the notice is left, without the ends of its lines.
only_notice :
    truncate_section (filled 310) 5 true
    ≡ 46 ∷ 46 ∷ 46 ∷ 32 ∷ 40 ∷ 51 ∷ 48 ∷ 53 ∷ 32 ∷ 99 ∷ 104 ∷ 97 ∷ 114 ∷ 115 ∷ 32 ∷ 116 ∷ 114 ∷ 117
      ∷ 110 ∷ 99 ∷ 97 ∷ 116 ∷ 101 ∷ 100 ∷ 41 ∷ []
unfolding truncate_section digits
only_notice = refl

abbrev sample_disk : Disk String
sample_disk = record {
  loads = λ text. some text;
  dumps = λ response. some response;
  size = λ text. 40;
  can_scan = true;
  can_stat = λ f. true;
  can_unlink = λ f. true;
}

abbrev sample_cache : ScoreCache
sample_cache = record { files = []; hits = 0; misses = 0; max_bytes = 100 }

abbrev sample_judge : Judge String String String ℕ String
sample_judge = record {
  build_request = some "bearer";
  post = λ headers n. (if headers == "bearer" then status 401 else ok "yes", suc n);
  auth_retry_headers = λ headers. some "api-key";
  classify_error = default_classify_error;
  parse_response = λ text. (some text, none);
  disk = sample_disk;
  entry = λ v u. v;
  validate = λ text. some (text, 0);
}

abbrev fresh_call : CallState
fresh_call = record { posts = 0; auth_retry_succeeded = false; cache = some sample_cache }

one_try : TriesAtMost sample_judge true 3 1
one_try headers n = (omega arith, omega arith)

AskedAtMost-call_api_example :
    AskedAtMost sample_judge true 3 0 2 (call_api sample_judge true 3 "q" fresh_call)
AskedAtMost-call_api_example = AskedAtMost-call_api sample_judge true 3 1 one_try "q" fresh_call

sample-Storable : Storable sample_judge 3 "q" 100
sample-Storable v u = (v, 0, refl, refl, refl, refl)

call_api-IsRemembered_example :
    IsRemembered sample_judge 3 "q" (call_api sample_judge true 3 "q" fresh_call)
call_api-IsRemembered_example =
    call_api-IsRemembered sample_judge 3 "q" 100 sample-Storable sample_cache fresh_call refl
      (refl, refl, refl)

second_headers : (call_api sample_judge true 3 "q" fresh_call).1.posts ≡ 2
unfolding call_api
second_headers = refl

no_other_headers :
    (call_api
      (record sample_judge { auth_retry_headers = λ headers. none })
      true
      3
      "q"
      fresh_call).0
    ≡ fatal
unfolding call_api
no_other_headers = refl

abbrev dimension : String → Kind → Bool → DimensionDef
dimension name kind allow = record {
  name = name;
  description = "";
  kind = kind;
  allow_inconclusive = allow;
  high = "";
  medium = "";
  low = "";
  pass = "";
  fail = "";
  evidence_hints = "";
}

abbrev sample_strategy : ScoringStrategy
sample_strategy = record {
  dimensions = dimension "style" ternary true ∷ dimension "works" binary false ∷ [];
  agent_context = "";
}

build_schema-HasScale_example :
    All (HasScale (λ s. s) (build_schema (λ s. s) sample_strategy)) sample_strategy.dimensions
build_schema-HasScale_example =
    build_schema-HasScale (λ s. s) sample_strategy (refl, (refl, tt)) (refl, (refl, tt)) refl

-- Two names that are made the same share the scale of the later one.
shared_scale :
    get "x_Verdict" (build_schema (λ s. "x") sample_strategy).defs ≡ some ("pass" ∷ "fail" ∷ [])
unfolding build_schema add_dimensions
shared_scale = refl

extended :
    dimension_names (
      effective_strategy_for_turn sample_strategy (
        some (record {
          instruction = none;
          dimensions = some (dimension "style" binary false ∷ []);
          extend_default_dimensions = true;
          evidence_files = none;
          skip = false;
        })))
    ≡ "works" ∷ "style" ∷ []
extended = refl

-- A model that is not reached for the second question.
abbrev sample_ask : Question String → ℕ → Outcome JudgeVerdict UsageStats × ℕ
sample_ask q n = (
  if n == 1
      then infra_error timeout
      else answered
          (some (record { overall_pass = true; dimension_scores = ("style", verdict high) ∷ [] }))
          none,
  suc n,
)

score_per_turn-IsHonest_example :
    Honest sample_ask sample_strategy isolated
      (λ i. none)
      ("a" ∷ "b" ∷ "c" ∷ [])
      (score_per_turn sample_ask sample_strategy isolated (λ i. none) ("a" ∷ "b" ∷ "c" ∷ []) 0).0
score_per_turn-IsHonest_example =
    score_per_turn-IsHonest sample_ask sample_strategy isolated (λ i. none) ("a" ∷ "b" ∷ "c" ∷ []) 0
