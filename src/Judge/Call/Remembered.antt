-- ===== src/Judge/Call/Remembered.antt =====
-- A verdict that was given is not asked for again.
use mathlib.Core.Path.{subst}
use agent_belt.Prelude.{
  ℕ, ◌≡◌, refl, sym, ap, ◌∙◌, String, Bool, true, not, ◌||◌, Option, none, some, string_eq, nat_eq,
  all, leb, Bool-cases, inl, inr, if_true, if_false,
}
use agent_belt.Cache.{
  CacheFile, ScoreCache, Disk, Lookup, hit, miss, os_error, find_file, read_file, get_file,
}
use agent_belt.Cache
use agent_belt.Cache.Reads.{get-put}
use agent_belt.Cache.Repeated.{get-get, all-get_file, max-get_file}
use agent_belt.Judge.Call.{
  Reply, ok, status, timed_out, http_error, unexpected, Outcome, answered, CallState, Judge,
  is_auth, is_fatal, after_retry, retry_auth, after_post, ask, call_api, put_answer, on_status,
  from_entry, looked_up, with_cache, cache_put,
}

module _ {H R V U D : Type 0} (judge : Judge H R V U D) (now : ℕ) (key : String) where
  -- The same question again, at any time, is answered with the same verdict and with no request.
  abbrev pub AskedNoMore : V → CallState → Type 0
  AskedNoMore v s =
      (written : Bool) (later : ℕ)
      → (u : U) × (t : CallState) × (call_api judge written later key s
          ≡ (answered (some v) (some u), t))
        × (t.posts ≡ s.posts)

  -- An entry can be printed, parsed and validated again, and is no larger than the budget.
  abbrev pub Storable : (max_bytes : ℕ) → Type 0
  Storable max_bytes =
      (v : V) (u : Option U)
      → (payload : String) × (u' : U) × (judge.disk.dumps (judge.entry v u) ≡ some payload)
        × (judge.disk.loads payload ≡ some (judge.entry v u))
        × (judge.validate (judge.entry v u) ≡ some (v, u'))
        × ((leb max_bytes 0 || leb (judge.disk.size payload) max_bytes) ≡ true)

  -- The budget is the given one, the time is later than that of every file, and the files can be
  -- unlinked.
  abbrev pub IsFresh : ℕ → ScoreCache → Type 0
  IsFresh max_bytes c =
      (c.max_bytes ≡ max_bytes)
      × (all (λ f. not (leb now f.mtime)) c.files ≡ true)
      × (all judge.disk.can_unlink c.files ≡ true)

  AskedNoMore-hit :
      (v : V) (u : U) (d : D) (c : ScoreCache) (s : CallState)
      → s.cache ≡ some c
      → (Cache.get judge.disk key c).0 ≡ hit d
      → judge.validate d ≡ some (v, u)
      → AskedNoMore v s
  unfolding call_api
  AskedNoMore-hit v u d c s e g r written later = (
    u,
    record s { cache = some (Cache.get judge.disk key c).1 },
    ap (λ o. with_cache judge written later key o s) e
        ∙ ap (λ l. looked_up judge written later key s (l, (Cache.get judge.disk key c).1)) g
        ∙ ap
            (λ o.
              from_entry judge written later key o
                (record s { cache = some (Cache.get judge.disk key c).1 }))
            r,
    refl,
  )

  -- What an outcome leaves.
  abbrev pub IsRemembered : Outcome V U × CallState → Type 0
  IsRemembered (answered (some v) u, s) = AskedNoMore v s
  IsRemembered _ = Unit

  IsFresh-get : (m : ℕ) (c : ScoreCache) → IsFresh m c → IsFresh m (Cache.get judge.disk key c).1
  IsFresh-get m c h = (
    max-get_file judge.disk (find_file key c.files) c ∙ h.0,
    all-get_file judge.disk (λ f. not (leb now f.mtime)) (find_file key c.files) c h.1,
    all-get_file judge.disk judge.disk.can_unlink (find_file key c.files) c h.2,
  )

  module _ (max_bytes : ℕ) (storable : Storable max_bytes) where
    IsRemembered-put_answer :
        (a : Option V × Option U) (c : ScoreCache) (s : CallState)
        → s.cache ≡ some c
        → IsFresh max_bytes c
        → IsRemembered (put_answer judge true now (some key) a s)
    IsRemembered-put_answer (none, u) c s e fresh = tt
    IsRemembered-put_answer (some v, u) c s e fresh =
        let entry = judge.entry v u in
        let (payload, u', printed, parsed, valid, fits) = storable v u in
        AskedNoMore-hit v u' entry (Cache.put judge.disk true now key entry c)
          (record s { cache = cache_put judge true now (some key) (some v) u s.cache })
          (ap (cache_put judge true now (some key) (some v) u) e)
          (get-put judge.disk now key entry payload c printed parsed fresh.1 fresh.2
            (subst (λ m. (leb m 0 || leb (judge.disk.size payload) m) ≡ true) (sym fresh.0) fits))
          valid

    module _ (c : ScoreCache) (fresh : IsFresh max_bytes c) where
      IsRemembered-on_status :
          (code : ℕ) (s : CallState) → IsRemembered (on_status judge true now code s)
      IsRemembered-on_status code s = elim (Bool-cases (is_fatal code)) [
        | inl f ↦ rw f tt
        | inr f ↦ rw f tt
      ]

      IsRemembered-after_retry :
          (r : Reply R) (s : CallState)
          → s.cache ≡ some c
          → IsRemembered (after_retry judge true now (some key) r s)
      IsRemembered-after_retry (ok resp) s e =
          IsRemembered-put_answer (judge.parse_response resp) c
            (record s { auth_retry_succeeded = true }) e fresh
      IsRemembered-after_retry (status code) s e = IsRemembered-on_status code s
      IsRemembered-after_retry timed_out s e = tt
      IsRemembered-after_retry http_error s e = tt
      IsRemembered-after_retry unexpected s e = tt

      IsRemembered-retry_auth :
          (code : ℕ) (retry : Option H) (s : CallState)
          → s.cache ≡ some c
          → IsRemembered (retry_auth judge true now (some key) code retry s)
      IsRemembered-retry_auth code none s e = IsRemembered-on_status code s
      IsRemembered-retry_auth code (some other) s e =
          IsRemembered-after_retry (judge.post other s.posts).0
            (record s { posts = (judge.post other s.posts).1 }) e

      IsRemembered-after_post :
          (headers : H) (r : Reply R) (s : CallState)
          → s.cache ≡ some c
          → IsRemembered (after_post judge true now (some key) headers r s)
      IsRemembered-after_post headers (ok resp) s e =
          IsRemembered-put_answer (judge.parse_response resp) c s e fresh
      IsRemembered-after_post headers (status code) s e = elim (Bool-cases (is_auth code)) [
        | inl f ↦
            subst IsRemembered (sym (if_true (is_auth code) _ _ f))
              (IsRemembered-retry_auth code (judge.auth_retry_headers headers) s e)
        | inr f ↦
            subst IsRemembered (sym (if_false (is_auth code) _ _ f)) (IsRemembered-on_status code s)
      ]
      IsRemembered-after_post headers timed_out s e = tt
      IsRemembered-after_post headers http_error s e = tt
      IsRemembered-after_post headers unexpected s e = tt

      IsRemembered-ask :
          (headers : Option H) (s : CallState)
          → s.cache ≡ some c
          → IsRemembered (ask judge true now (some key) headers s)
      IsRemembered-ask none s e = tt
      IsRemembered-ask (some headers) s e =
          IsRemembered-after_post headers (judge.post headers s.posts).0
            (record s { posts = (judge.post headers s.posts).1 }) e

    IsRemembered-from_entry :
        (o : Option (V × U)) (d : D) (c : ScoreCache) (s : CallState)
        → judge.validate d ≡ o
        → s.cache ≡ some c
        → IsFresh max_bytes c
        → (Cache.get judge.disk key c).0 ≡ hit d
        → IsRemembered (from_entry judge true now key o s)
    IsRemembered-from_entry none d c s v e fresh g =
        IsRemembered-ask c fresh judge.build_request s e
    IsRemembered-from_entry (some (verdict, usage)) d c s v e fresh g =
        AskedNoMore-hit verdict usage d c s e g v

    IsRemembered-looked_up :
        (c : ScoreCache) (s : CallState) (l : Lookup D)
        → IsFresh max_bytes c
        → (Cache.get judge.disk key c).0 ≡ l
        → IsRemembered (looked_up judge true now key s (l, (Cache.get judge.disk key c).1))
    IsRemembered-looked_up c s (hit d) fresh g =
        IsRemembered-from_entry (judge.validate d) d (Cache.get judge.disk key c).1
          (record s { cache = some (Cache.get judge.disk key c).1 }) refl refl
          (IsFresh-get max_bytes c fresh) (get-get judge.disk key c d g)
    IsRemembered-looked_up c s miss fresh g =
        IsRemembered-ask (Cache.get judge.disk key c).1 (IsFresh-get max_bytes c fresh)
          judge.build_request (record s { cache = some (Cache.get judge.disk key c).1 }) refl
    IsRemembered-looked_up c s os_error fresh g = tt

    -- With a cache that is written, a call that gives a verdict leaves a state in which the same
    -- question is answered by that verdict at any later time with no request; whether the verdict
    -- came from the cache, from the first request or from the retry with other headers. The
    -- entries can be stored, the cache's files are older and can be unlinked.
    pub call_api-IsRemembered :
        (c : ScoreCache) (s : CallState)
        → s.cache ≡ some c
        → IsFresh max_bytes c
        → IsRemembered (call_api judge true now key s)
    unfolding call_api
    call_api-IsRemembered c s e fresh =
        subst (λ o. IsRemembered (with_cache judge true now key o s)) (sym e)
          (IsRemembered-looked_up c s (Cache.get judge.disk key c).0 fresh refl)
