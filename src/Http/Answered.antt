-- ===== src/Http/Answered.antt =====
-- What comes back of a request, whatever the routes do with it.
use Prim.Native.String.{◌++◌ as str_append}
use replay_forge.Base.{
  ℕ, ◌≡◌, ◌∙◌, refl, subst, String, Bool, true, false, not, ◌&&◌, Option, none, some, if◌then◌else◌,
  Bool-cases, inl, inr,
}
use replay_forge.RateLimit.{Counters, Verdict, unlimited, allowed, refused, dispatch}
use replay_forge.Http.{
  HttpRequest, Content, text, internal_error, validation_error, http_error, Response, Raised,
  Outgoing, answered, raised, Stack, Config, or_default, handle, handled, security_headers,
  answer_with, Serving, call_routes, limited_request, follow, rate_limit, too_large, max_body_size,
  or_internal, request_id, serve_request,
}

abbrev pub is_there : Option String → Bool
is_there none = false
is_there (some v) = true

unchanged : (o : Outgoing) → answer_with (λ r. r) o ≡ o
unchanged (answered r) = refl
unchanged (raised e) = refl

module _ (c : Counters) (k : Stack) (config : Config) (q : HttpRequest)
    (s : Serving c k config) where
  -- The request as the inner layers see it.
  abbrev pub identified : HttpRequest
  identified = record q { state_request_id = some (request_id c k config q s) }

  abbrev pub verdict : Verdict
  verdict = (dispatch c config.limits (limited_request c k config identified) s.limiter).0

  -- What the routes come to: their own answer, or one that says what they raised.
  abbrev pub routed : Outgoing → ℕ × Content
  routed (answered r) = (r.status_code, r.content)
  routed (raised (Raised.validation details)) =
      (422, validation_error details (some (request_id c k config q s)))
  routed (raised (Raised.http code detail)) =
      (code, http_error detail (some (request_id c k config q s)))
  routed (raised (Raised.other message)) = (500, internal_error (request_id c k config q s))

  abbrev pub judged : Verdict → ℕ × Content
  judged (refused reset_at) = (429, text "{\"error\":\"rate limit exceeded\",\"retry_after\":60}")
  judged _ = routed (k.routes identified s.state).0

  -- The status and the content that the request should be answered with.
  abbrev pub expected : ℕ × Content
  expected =
      if too_large c k config identified
      then (
        413,
        text (
            str_append "{\"error\":\"payload too large\",\"max_bytes\":"
              (str_append (k.decimal config.max_body_bytes) "}")),
      )
      else judged verdict

  -- The answer of the routes themselves, or of a handler of theirs.
  abbrev pub is_handled : Outgoing → Bool
  is_handled (raised (Raised.other message)) = false
  is_handled _ = true

  abbrev pub lets_through : Verdict → Bool
  lets_through (refused reset_at) = false
  lets_through _ = true

  abbrev pub comes_from_routes : Bool
  comes_from_routes =
      not (too_large c k config identified)
      && lets_through verdict
      && is_handled (k.routes identified s.state).0

  -- What an outcome becomes on its way out, with what the limiter adds.
  abbrev leave : (Response → Response) → Outgoing → Response
  leave f o = or_internal c k config (request_id c k config q s) (
      answer_with (k.cors identified)
        (answer_with f (answer_with (security_headers config) (handled identified o))))

  record IsLike (r : Response) (answer : ℕ × Content) (sniff : Bool) : Type 0 where
    status : r.status_code ≡ answer.0
    content : r.content ≡ answer.1
    nosniff : is_there (r.headers "x-content-type-options") ≡ sniff

  default_is_there : (o : Option String) (v : String) → is_there (or_default o v) ≡ true
  default_is_there none v = refl
  default_is_there (some old) v = refl

  secured_status : (r : Response) → (security_headers config r).status_code ≡ r.status_code
  unfolding security_headers
  secured_status r = refl

  secured_content : (r : Response) → (security_headers config r).content ≡ r.content
  unfolding security_headers
  secured_content r = refl

  secured :
      (r : Response)
      → is_there ((security_headers config r).headers "x-content-type-options") ≡ true
  unfolding security_headers
  secured r = elim (Bool-cases config.is_production) [
    | inl strict ↦ rw strict (default_is_there (r.headers "x-content-type-options") "nosniff")
    | inr plain ↦ rw plain (default_is_there (r.headers "x-content-type-options") "nosniff")
  ]

  module _ (f : Response → Response)
      (keeps_status : (r : Response) → (f r).status_code ≡ r.status_code)
      (keeps_content : (r : Response) → (f r).content ≡ r.content)
      (keeps_nosniff : (r : Response)
        → (f r).headers "x-content-type-options" ≡ r.headers "x-content-type-options") where
    passed_on :
        (r : Response)
        → IsLike (k.cors identified (f (security_headers config r))) (r.status_code, r.content) true
    passed_on r =
        let r1 = security_headers config r in
        record {
          status = k.cors-status identified (f r1) ∙ keeps_status r1 ∙ secured_status r;
          content = k.cors-content identified (f r1) ∙ keeps_content r1 ∙ secured_content r;
          nosniff = rw (k.cors-nosniff identified (f r1), keeps_nosniff r1) (secured r);
        }

    -- An outcome of the routes passes a layer that keeps the status, the content and that header.
    leave-IsLike : (o : Outgoing) → IsLike (leave f o) (routed o) (is_handled o)
    unfolding handle
    leave-IsLike (answered r) = passed_on r
    leave-IsLike (raised (Raised.validation details)) = passed_on _
    leave-IsLike (raised (Raised.http code detail)) = passed_on _
    leave-IsLike (raised (Raised.other message)) = record {
      status = refl;
      content = refl;
      nosniff = refl;
    }

  followed-IsLike :
      (v : Verdict) (t : Serving c k config)
      → t.state ≡ s.state
      → IsLike
          (or_internal c k config
            (request_id c k config q s)
            (answer_with (k.cors identified) (follow c k config identified v t).0))
          (judged v)
          (lets_through v && is_handled (k.routes identified s.state).0)
  unfolding call_routes
  followed-IsLike unlimited t e = rw e (
      subst
        (λ o.
          IsLike
            (or_internal c k config (request_id c k config q s) (answer_with (k.cors identified) o))
            (routed (k.routes identified s.state).0) (is_handled (k.routes identified s.state).0))
        (unchanged (
          answer_with (security_headers config)
            (handled identified (k.routes identified s.state).0)))
        (leave-IsLike (λ r. r) (λ r. refl) (λ r. refl) (λ r. refl) (k.routes identified s.state).0))
  followed-IsLike (allowed remaining reset_at) t e =
      rw e (leave-IsLike _ (λ r. refl) (λ r. refl) (λ r. refl) (k.routes identified s.state).0)
  followed-IsLike (refused reset_at) t e = record {
    status = k.cors-status identified _;
    content = k.cors-content identified _;
    nosniff = rw (k.cors-nosniff identified _) refl;
  }

  sized-IsLike :
      IsLike
        (or_internal c k config
          (request_id c k config q s)
          (answer_with (k.cors identified) (max_body_size c k config identified s).0))
        expected
        comes_from_routes
  unfolding max_body_size rate_limit
  sized-IsLike = elim (Bool-cases (too_large c k config identified)) [
    | inl large ↦ rw large (record {
      status = k.cors-status identified _;
      content = k.cors-content identified _;
      nosniff = rw (k.cors-nosniff identified _) refl;
    })
    | inr fits ↦ rw fits (
        followed-IsLike verdict
          (record s {
            limiter =
                (dispatch c config.limits (limited_request c k config identified) s.limiter).1;
          })
          refl)
  ]

  -- Every request is answered, with its identifier in a header: one that is too large with 413, one over
  -- the rate limit with 429, and otherwise with what the routes answer, or with a status and a content
  -- that say what they raised and name the request; preflight requests, which Starlette answers, aside.
  pub serve_request-expected :
      k.preflight identified ≡ none
      → ((serve_request c k config q s).0.status_code ≡ expected.0)
        × ((serve_request c k config q s).0.content ≡ expected.1)
        × ((serve_request c k config q s).0.headers "x-request-id"
            ≡ some (request_id c k config q s))
  unfolding serve_request
  serve_request-expected plain = rw plain (sized-IsLike.status, sized-IsLike.content, refl)

  -- The security headers (the first of them) are on an answer exactly if it comes from the routes or from
  -- a handler of what they raised: an answer 413, 429, or 500 for another exception, has none.
  pub serve_request-nosniff :
      k.preflight identified ≡ none
      → is_there ((serve_request c k config q s).0.headers "x-content-type-options")
        ≡ comes_from_routes
  unfolding serve_request
  serve_request-nosniff plain = rw plain sized-IsLike.nosniff
