-- ===== src/Judge/Call.antt =====
-- `_call_api`, `_finalize` and `_cache_put` of src/belt/scorer/llm/scorer.py: one question to a judge.
pub mod Posts
pub mod Remembered
use agent_belt.Prelude.{
  ℕ, ◌+◌, ◌≤◌, ◌<◌, ◌≡◌, String, Bool, true, false, ◌||◌, Option, none, some, List, if◌then◌else◌,
  ◌==◌, nat_eq, or_else,
}
use agent_belt.Payloads.{JudgeErrorType, timeout, other, auth_failed, rate_limited}
use agent_belt.Cache
use agent_belt.Cache.{ScoreCache, Disk, Lookup, hit, miss, os_error}

-- What a request gives: a response; an HTTP status that is an error; a time-out or another HTTP
-- error; any other exception.
pub data Reply (R : Type 0) : Type 0 where
  ok : R → Reply R
  status : ℕ → Reply R
  timed_out : Reply R
  http_error : Reply R
  unexpected : Reply R

-- What the call gives: a verdict, or None for an answer that cannot be parsed, and the usage; a
-- JudgeInfraError; a ScorerError; an exception of another kind.
pub data Outcome (V U : Type 0) : Type 0 where
  answered : Option V → Option U → Outcome V U
  infra_error : JudgeErrorType → Outcome V U
  fatal : Outcome V U
  crashed : Outcome V U

-- The requests made so far, whether the backend was told that its other headers work, and the cache.
pub record CallState : Type 0 where
  pub posts : ℕ
  pub auth_retry_succeeded : Bool
  pub cache : Option ScoreCache

-- The default `classify_error` of a backend; `none` is an exception that it does not know.
abbrev pub classify_status : ℕ → JudgeErrorType
classify_status code =
    if code == 429
    then rate_limited
    else (if code == 401 || (code == 403 || code == 404) then auth_failed else other)

abbrev pub default_classify_error : {R : Type 0} → Reply R → Option JudgeErrorType
default_classify_error (status code) = some (classify_status code)
default_classify_error timed_out = some timeout
default_classify_error http_error = some other
default_classify_error _ = none

-- A backend, the parsing of its responses, the cache's disk and what stands in an entry. `post` is
-- `_post` under the `backoff` decorator: of the headers and the requests made so far it gives the
-- last reply and the requests made then.
pub record Judge (H R V U D : Type 0) : Type 0 where
  pub build_request : Option H
  pub post : H → ℕ → Reply R × ℕ
  pub auth_retry_headers : H → Option H
  pub classify_error : Reply R → Option JudgeErrorType
  pub parse_response : R → Option V × Option U
  pub disk : Disk D
  pub entry : V → Option U → D
  -- `JudgeVerdict.model_validate` of an entry, with its usage, marked as cached
  pub validate : D → Option (V × U)

abbrev pub is_auth : ℕ → Bool
is_auth code = code == 401 || code == 403

-- The statuses that are errors of the configuration.
abbrev pub is_fatal : ℕ → Bool
is_fatal code = is_auth code || code == 404

-- `written` and `now` are for the `put` of the cache.
module _ {H R V U D : Type 0} (judge : Judge H R V U D) (written : Bool) (now : ℕ) where
  -- `_cache_put`; `key` is `none` where there is no cache.
  abbrev pub cache_put : Option String → Option V → Option U → Option ScoreCache → Option ScoreCache
  cache_put (some key) (some verdict) usage (some c) =
      some (Cache.put judge.disk written now key (judge.entry verdict usage) c)
  cache_put _ _ _ cache = cache

  abbrev pub put_answer : Option String → Option V × Option U → CallState → Outcome V U × CallState
  put_answer key (verdict, usage) s =
      (answered verdict usage, record s { cache = cache_put key verdict usage s.cache })

  -- `_finalize`
  abbrev pub finalize : Option String → R → CallState → Outcome V U × CallState
  finalize key resp s = put_answer key (judge.parse_response resp) s

  abbrev pub infra : Reply R → JudgeErrorType → CallState → Outcome V U × CallState
  infra reply default s = (infra_error (or_else (judge.classify_error reply) default), s)

  -- The reply to the one retry with other headers.
  abbrev pub after_retry : Option String → Reply R → CallState → Outcome V U × CallState
  after_retry key (ok resp) s = finalize key resp (record s { auth_retry_succeeded = true })
  after_retry key (status code) s =
      if is_fatal code then (fatal, s) else infra (status code) other s
  after_retry key timed_out s = infra timed_out timeout s
  after_retry key http_error s = infra http_error other s
  after_retry key unexpected s = (crashed, s)

  abbrev pub counted : CallState → Reply R × ℕ → Reply R × CallState
  counted s (reply, n) = (reply, record s { posts = n })

  abbrev pub retried : Option String → Reply R × CallState → Outcome V U × CallState
  retried key (reply, s) = after_retry key reply s

  abbrev pub on_status : ℕ → CallState → Outcome V U × CallState
  on_status code s = if is_fatal code then (fatal, s) else infra (status code) other s

  abbrev pub retry_auth : Option String → ℕ → Option H → CallState → Outcome V U × CallState
  retry_auth key code none s = on_status code s
  retry_auth key code (some headers) s = retried key (counted s (judge.post headers s.posts))

  -- The reply to the first request.
  abbrev pub after_post : Option String → H → Reply R → CallState → Outcome V U × CallState
  after_post key headers (ok resp) s = finalize key resp s
  after_post key headers (status code) s =
      if is_auth code
      then retry_auth key code (judge.auth_retry_headers headers) s
      else on_status code s
  after_post key headers timed_out s = infra timed_out timeout s
  after_post key headers http_error s = infra http_error other s
  after_post key headers unexpected s = infra unexpected other s

  abbrev pub posted : Option String → H → Reply R × CallState → Outcome V U × CallState
  posted key headers (reply, s) = after_post key headers reply s

  -- The request, if it can be built.
  abbrev pub ask : Option String → Option H → CallState → Outcome V U × CallState
  ask key none s = (infra_error auth_failed, s)
  ask key (some headers) s = posted key headers (counted s (judge.post headers s.posts))

  abbrev pub from_entry : String → Option (V × U) → CallState → Outcome V U × CallState
  from_entry key (some (verdict, usage)) s = (answered (some verdict) (some usage), s)
  from_entry key none s = ask (some key) judge.build_request s

  abbrev pub looked_up : String → CallState → Lookup D × ScoreCache → Outcome V U × CallState
  looked_up key s (hit d, c) = from_entry key (judge.validate d) (record s { cache = some c })
  looked_up key s (miss, c) = ask (some key) judge.build_request (record s { cache = some c })
  looked_up key s (os_error, c) = (crashed, s)

  abbrev pub with_cache : String → Option ScoreCache → CallState → Outcome V U × CallState
  with_cache key none s = ask none judge.build_request s
  with_cache key (some c) s = looked_up key s (Cache.get judge.disk key c)

  -- `_call_api`; `key` is the cache's key for the question.
  unfoldable pub call_api : String → CallState → Outcome V U × CallState
  call_api key s = with_cache key s.cache s
