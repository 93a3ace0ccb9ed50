-- ===== src/Judge/Call/Posts.antt =====
-- How often a question is asked, and when it raises ScorerError.
use agent_belt.Prelude.{
  if_true, if_false, ℕ, ◌+◌, ◌*◌, ◌≤◌, ◌<◌, ◌≡◌, refl, sym, String, Bool, true, Option, none, some,
  nat_eq, Bool-cases, inl, inr, arith,
}
use mathlib.Core.Path.{subst}
use agent_belt.Cache.{ScoreCache, Lookup, hit, miss, os_error}
use agent_belt.Cache
use agent_belt.Judge.Call.{
  Reply, ok, status, timed_out, http_error, unexpected, Outcome, fatal, CallState, Judge, is_auth,
  is_fatal, after_retry, retry_auth, after_post, ask, call_api, put_answer, on_status, from_entry,
  looked_up, with_cache,
}

module _ {H R V U D : Type 0} (judge : Judge H R V U D) (written : Bool) (now : ℕ) where
  -- What `backoff` promises: one try or more, and no more than `max_tries`.
  abbrev pub TriesAtMost : ℕ → Type 0
  TriesAtMost max_tries =
      (headers : H) (n : ℕ)
      → (n < (judge.post headers n).1) × ((judge.post headers n).1 ≤ n + max_tries)

  -- Some request was answered by a status that is an error of the configuration.
  abbrev pub FatalReply : Type 0
  FatalReply =
      (headers : H) × (n : ℕ) × (code : ℕ) × ((judge.post headers n).0 ≡ status code)
      × (is_fatal code ≡ true)

  abbrev pub Justified : Outcome V U → Type 0
  Justified fatal = FatalReply
  Justified _ = Unit

  -- Between `posts` and `k` requests more, and a reason for a fatal outcome.
  abbrev pub AskedAtMost : ℕ → ℕ → Outcome V U × CallState → Type 0
  AskedAtMost posts k (o, s) = (posts ≤ s.posts) × (s.posts ≤ posts + k) × Justified o

  AskedAtMost-finalize :
      (p k : ℕ) (key : Option String) (a : Option V × Option U) (s : CallState)
      → p ≤ s.posts
      → s.posts ≤ p + k
      → AskedAtMost p k (put_answer judge written now key a s)
  AskedAtMost-finalize p k key (v, u) s h l = (h, l, tt)

  AskedAtMost-on_status :
      (p k : ℕ) (headers : H) (n code : ℕ) (s : CallState)
      → (judge.post headers n).0 ≡ status code
      → p ≤ s.posts
      → s.posts ≤ p + k
      → AskedAtMost p k (on_status judge written now code s)
  AskedAtMost-on_status p k headers n code s e h l = elim (Bool-cases (is_fatal code)) [
    | inl f ↦ rw f (h, l, (headers, n, code, e, f))
    | inr f ↦ rw f (h, l, tt)
  ]

  AskedAtMost-after_retry :
      (p k : ℕ) (key : Option String) (headers : H) (n : ℕ) (r : Reply R) (s : CallState)
      → (judge.post headers n).0 ≡ r
      → p ≤ s.posts
      → s.posts ≤ p + k
      → AskedAtMost p k (after_retry judge written now key r s)
  AskedAtMost-after_retry p k key headers n (ok resp) s e h l =
      AskedAtMost-finalize p k key (judge.parse_response resp)
        (record s { auth_retry_succeeded = true }) h l
  AskedAtMost-after_retry p k key headers n (status code) s e h l =
      AskedAtMost-on_status p k headers n code s e h l
  AskedAtMost-after_retry p k key headers n timed_out s e h l = (h, l, tt)
  AskedAtMost-after_retry p k key headers n http_error s e h l = (h, l, tt)
  AskedAtMost-after_retry p k key headers n unexpected s e h l = (h, l, tt)

  module _ (max_tries : ℕ) (tries : TriesAtMost max_tries) where
    AskedAtMost-retry_auth :
        (p : ℕ) (key : Option String) (headers : H) (n code : ℕ) (retry : Option H) (s : CallState)
        → (judge.post headers n).0 ≡ status code
        → p ≤ s.posts
        → s.posts ≤ p + max_tries
        → AskedAtMost p (2 * max_tries) (retry_auth judge written now key code retry s)
    AskedAtMost-retry_auth p key headers n code none s e h l =
        AskedAtMost-on_status p (2 * max_tries) headers n code s e h (omega (arith, l))
    AskedAtMost-retry_auth p key headers n code (some other) s e h l =
        AskedAtMost-after_retry p (2 * max_tries) key other s.posts (judge.post other s.posts).0
          (record s { posts = (judge.post other s.posts).1 }) refl
          (omega (arith, h, tries other s.posts)) (omega (arith, l, tries other s.posts))

    AskedAtMost-after_post :
        (p : ℕ) (key : Option String) (headers : H) (n : ℕ) (r : Reply R) (s : CallState)
        → (judge.post headers n).0 ≡ r
        → p ≤ s.posts
        → s.posts ≤ p + max_tries
        → AskedAtMost p (2 * max_tries) (after_post judge written now key headers r s)
    AskedAtMost-after_post p key headers n (ok resp) s e h l =
        AskedAtMost-finalize p (2 * max_tries) key (judge.parse_response resp) s h
          (omega (arith, l))
    AskedAtMost-after_post p key headers n (status code) s e h l =
        elim (Bool-cases (is_auth code)) [
          | inl f ↦ subst (AskedAtMost p (2 * max_tries)) (sym (if_true (is_auth code) _ _ f)) (
              AskedAtMost-retry_auth p key headers n code (judge.auth_retry_headers headers) s e h
                l)
          | inr f ↦
              subst (AskedAtMost p (2 * max_tries)) (sym (if_false (is_auth code) _ _ f))
                (AskedAtMost-on_status p (2 * max_tries) headers n code s e h (omega (arith, l)))
        ]
    AskedAtMost-after_post p key headers n timed_out s e h l = (h, omega (arith, l), tt)
    AskedAtMost-after_post p key headers n http_error s e h l = (h, omega (arith, l), tt)
    AskedAtMost-after_post p key headers n unexpected s e h l = (h, omega (arith, l), tt)

    AskedAtMost-ask :
        (key : Option String) (headers : Option H) (s : CallState)
        → AskedAtMost s.posts (2 * max_tries) (ask judge written now key headers s)
    AskedAtMost-ask key none s = (omega arith, omega arith, tt)
    AskedAtMost-ask key (some headers) s =
        AskedAtMost-after_post s.posts key headers s.posts (judge.post headers s.posts).0
          (record s { posts = (judge.post headers s.posts).1 }) refl
          (omega (arith, tries headers s.posts)) (omega (arith, tries headers s.posts))

    AskedAtMost-from_entry :
        (key : String) (e : Option (V × U)) (s : CallState)
        → AskedAtMost s.posts (2 * max_tries) (from_entry judge written now key e s)
    AskedAtMost-from_entry key none s = AskedAtMost-ask (some key) judge.build_request s
    AskedAtMost-from_entry key (some (v, u)) s = (omega arith, omega arith, tt)

    AskedAtMost-looked_up :
        (key : String) (s : CallState) (found : Lookup D × ScoreCache)
        → AskedAtMost s.posts (2 * max_tries) (looked_up judge written now key s found)
    AskedAtMost-looked_up key s (hit d, c) =
        AskedAtMost-from_entry key (judge.validate d) (record s { cache = some c })
    AskedAtMost-looked_up key s (miss, c) =
        AskedAtMost-ask (some key) judge.build_request (record s { cache = some c })
    AskedAtMost-looked_up key s (os_error, c) = (omega arith, omega arith, tt)

    AskedAtMost-with_cache :
        (key : String) (cache : Option ScoreCache) (s : CallState)
        → AskedAtMost s.posts (2 * max_tries) (with_cache judge written now key cache s)
    AskedAtMost-with_cache key none s = AskedAtMost-ask none judge.build_request s
    AskedAtMost-with_cache key (some c) s = AskedAtMost-looked_up key s (Cache.get judge.disk key c)

    -- A call ends after at most twice the tries of the backoff, whatever the server replies: the
    -- first request and its one retry with other headers. And it raises ScorerError only if some
    -- request was answered by 401, 403 or 404.
    pub AskedAtMost-call_api :
        (key : String) (s : CallState)
        → AskedAtMost s.posts (2 * max_tries) (call_api judge written now key s)
    unfolding call_api
    AskedAtMost-call_api key s = AskedAtMost-with_cache key s.cache s
