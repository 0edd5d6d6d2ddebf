-- ===== src/Http.antt =====
-- api/app/main.py and the middleware of api/app/core/security.py: what a request passes through, from the
-- outermost layer (the one that is added last) to the routes and back. The routes, the CORS middleware
-- of Starlette and the texts of numbers are parameters.

pub mod Answered
use Prim.Native.String.{◌++◌ as str_append}
use replay_forge.Base.{
  ℕ, ◌≡◌, ◌/◌, String, Bool, true, false, Option, none, some, str_eq, if◌then◌else◌,
}
use replay_forge.Security.{body_too_large}
use replay_forge.RateLimit.{
  Request, Limits, Counters, Verdict, unlimited, allowed, refused, dispatch, limit_of,
}

-- Header names are in lower case: Starlette does not tell cases apart.
abbrev pub Headers : Type 0
Headers = String → Option String

-- `request.state.request_id` is `none` until it is set.
pub record HttpRequest : Type 0 where
  pub method : String
  pub path : String
  pub headers : Headers
  pub client_host : Option String
  pub now : ℕ
  pub state_request_id : Option String

-- The contents of a response: that of a route or of another layer as a text, and what main.py makes.
pub data Content : Type 0 where
  text : String → Content
  internal_error : (request_id : String) → Content
  validation_error : (details : String) (request_id : Option String) → Content
  http_error : (detail : String) (request_id : Option String) → Content

pub record Response : Type 0 where
  pub status_code : ℕ
  pub content : Content
  pub headers : Headers

-- What a route raises: `RequestValidationError`, Starlette's `HTTPException`, or anything else.
pub data Raised : Type 0 where
  validation : (details : String) → Raised
  http : (status_code : ℕ) (detail : String) → Raised
  other : String → Raised

pub data Outgoing : Type 0 where
  answered : Response → Outgoing
  raised : Raised → Outgoing

-- `headers[k] = v` and `headers.setdefault(k, v)`
abbrev pub set : String → String → Headers → Headers
set k v h name = if str_eq name k then some v else h name

abbrev pub or_default : Option String → String → Option String
or_default none v = some v
or_default (some old) v = some old

abbrev pub set_default : String → String → Headers → Headers
set_default k v h name = if str_eq name k then or_default (h name) v else h name

-- What the layers call of Python and Starlette.
pub record Stack : Type 1 where
  pub State : Type 0
  -- the routes, where what they raise has come to no handler yet
  pub routes : HttpRequest → State → Outgoing × State
  -- the answer of the CORS middleware to a preflight request, and what it adds to another answer
  pub preflight : HttpRequest → Option Response
  pub cors : HttpRequest → Response → Response
  pub cors-status : (q : HttpRequest) (r : Response) → (cors q r).status_code ≡ r.status_code
  pub cors-content : (q : HttpRequest) (r : Response) → (cors q r).content ≡ r.content
  pub cors-nosniff :
      (q : HttpRequest) (r : Response)
      → (cors q r).headers "x-content-type-options" ≡ r.headers "x-content-type-options"
  -- `uuid4().hex[:16]`
  pub make_request_id : State → String
  -- `str(n)`
  pub decimal : ℕ → String
  -- `str(duration_ms)` of the time that the request took
  pub duration : HttpRequest → String
  -- `int(s)` if `s.isdigit()`
  pub digits : String → Option ℕ
  -- `s.split(",")[0].strip()`
  pub first_part : String → String

pub record Config : Type 0 where
  pub limits : Limits
  pub max_body_bytes : ℕ
  pub is_production : Bool

abbrev pub no_headers : Headers
no_headers name = none

-- `{"Content-Type": "application/json"}`
abbrev pub json_headers : Headers
json_headers = set "content-type" "application/json" no_headers

-- `a or b`, of texts
abbrev pub or_else : Option String → String → String
or_else none b = b
or_else (some a) b = if str_eq a "" then b else a

-- `_client_ip`
abbrev pub client_ip : Stack → HttpRequest → String
client_ip k q = elim (q.headers "x-forwarded-for") [
  | none ↦ or_unknown q.client_host
  | some fwd ↦ if str_eq fwd "" then or_unknown q.client_host else k.first_part fwd
]
  where
    or_unknown : Option String → String
    or_unknown none = "unknown"
    or_unknown (some host) = host

-- `validation_handler` and `http_exception_handler`; another exception has no handler.
unfoldable pub handle : HttpRequest → Raised → Outgoing
handle q (Raised.validation details) = answered (record {
  status_code = 422;
  content = validation_error details q.state_request_id;
  headers = json_headers;
})
handle q (Raised.http code detail) = answered (record {
  status_code = code;
  content = http_error detail q.state_request_id;
  headers = json_headers;
})
handle q (Raised.other message) = raised (Raised.other message)

-- `SecurityHeadersMiddleware`
unfoldable pub security_headers : Config → Response → Response
security_headers config r =
    let h = set_default "permissions-policy" "geolocation=(),microphone=(),camera=()" (
      set_default "referrer-policy" "strict-origin-when-cross-origin" (
        set_default "x-frame-options" "DENY"
          (set_default "x-content-type-options" "nosniff" r.headers))) in
    record r {
      headers =
          if config.is_production
          then set_default "strict-transport-security" "max-age=31536000; includeSubDomains" h
          else h;
    }

-- A layer that changes the answers of the next one and passes on what it raises.
abbrev pub answer_with : (Response → Response) → Outgoing → Outgoing
answer_with f (answered r) = answered (f r)
answer_with f (raised e) = raised e

abbrev pub handled : HttpRequest → Outgoing → Outgoing
handled q (answered r) = answered r
handled q (raised e) = handle q e

module _ (c : Counters) (k : Stack) (config : Config) where
  -- The sorted sets of the limiter, and what the routes run over.
  pub record Serving : Type 0 where
    pub limiter : c.Server
    pub state : k.State

  -- The routes with the exception handlers, and `SecurityHeadersMiddleware` around them.
  unfoldable pub call_routes : HttpRequest → Serving → Outgoing × Serving
  call_routes q s =
      let (o, state) = k.routes q s.state in
      (answer_with (security_headers config) (handled q o), record s { state = state })

  abbrev pub limited_request : HttpRequest → Request
  limited_request q = record { path = q.path; method = q.method; ip = client_ip k q; now = q.now }

  -- `limit`, `remaining` and `reset_at`
  abbrev pub rate_headers : ℕ → ℕ → ℕ → Headers → Headers
  rate_headers limit remaining reset_at h =
      set "x-ratelimit-reset" (k.decimal (reset_at / 1000000)) (
        set "x-ratelimit-remaining" (k.decimal remaining)
          (set "x-ratelimit-limit" (k.decimal limit) h))

  abbrev pub too_many_requests : ℕ → ℕ → Response
  too_many_requests limit reset_at = record {
    status_code = 429;
    content = text "{\"error\":\"rate limit exceeded\",\"retry_after\":60}";
    headers = rate_headers limit 0 reset_at (set "retry-after" "60" json_headers);
  }

  abbrev pub follow : HttpRequest → Verdict → Serving → Outgoing × Serving
  follow q unlimited s = call_routes q s
  follow q (allowed remaining reset_at) s =
      let (o, s') = call_routes q s in
      (
        answer_with
            (λ r. record r {
              headers =
                  rate_headers (limit_of config.limits (limited_request q)) remaining reset_at
                    r.headers;
            })
            o,
        s',
      )
  follow q (refused reset_at) s =
      (answered (too_many_requests (limit_of config.limits (limited_request q)) reset_at), s)

  -- `RateLimitMiddleware.dispatch`
  unfoldable pub rate_limit : HttpRequest → Serving → Outgoing × Serving
  rate_limit q s =
      let (v, limiter) = dispatch c config.limits (limited_request q) s.limiter in
      follow q v (record s { limiter = limiter })

  -- `content-length`, where it is there and only digits
  abbrev pub content_length : HttpRequest → Option ℕ
  content_length q = elim (q.headers "content-length") [ none ↦ none | some cl ↦ k.digits cl ]

  abbrev pub too_large : HttpRequest → Bool
  too_large q = body_too_large config.max_body_bytes (content_length q)

  -- `MaxBodySizeMiddleware.dispatch`
  unfoldable pub max_body_size : HttpRequest → Serving → Outgoing × Serving
  max_body_size q s =
      if too_large q
      then (
        answered (record {
          status_code = 413;
          content = text (
              str_append "{\"error\":\"payload too large\",\"max_bytes\":"
                (str_append (k.decimal config.max_body_bytes) "}"));
          headers = json_headers;
        }),
        s,
      )
      else rate_limit q s

  abbrev pub with_cors : HttpRequest → Option Response → Serving → Outgoing × Serving
  with_cors q (some r) s = (answered r, s)
  with_cors q none s = let (o, s') = max_body_size q s in (answer_with (k.cors q) o, s')

  -- The `except` of the outermost layer.
  abbrev pub or_internal : String → Outgoing → Response
  or_internal rid (answered r) = r
  or_internal rid (raised e) = record {
    status_code = 500;
    content = internal_error rid;
    headers = json_headers;
  }

  abbrev pub request_id : HttpRequest → Serving → String
  request_id q s = or_else (q.headers "x-request-id") (k.make_request_id s.state)

  -- `request_logging_middleware`
  unfoldable pub serve_request : HttpRequest → Serving → Response × Serving
  serve_request q s =
      let rid = request_id q s in
      let q' = record q { state_request_id = some rid } in
      let (o, s') = with_cors q' (k.preflight q') s in
      let r = or_internal rid o in
      (
        record r {
          headers = set "x-response-time-ms" (k.duration q) (set "x-request-id" rid r.headers);
        },
        s',
      )
