-- ===== src/Tests/Http.antt =====
-- The theorems of Http at a concrete request.
use replay_forge.Base.{ℕ, ◌≡◌, refl, String, true, false, [], none, some, if◌then◌else◌, str_eq}
use replay_forge.Http.{
  HttpRequest, http_error, Outgoing, Raised, raised, Stack, Config, no_headers, set, Serving,
  serve_request, max_body_size, rate_limit, call_routes, handle, security_headers,
}
use replay_forge.RateLimit.{dispatch}
use replay_forge.Security.{body_too_large}
use replay_forge.Http.Answered.{is_there, serve_request-expected, serve_request-nosniff}
use replay_forge.Tests.RateLimit.{counters, limits}

-- The routes know one path, and fail there.
abbrev routes : HttpRequest → Unit {0} → Outgoing × (Unit {0})
routes q s = (
  raised (
      if str_eq q.path "/api/boom"
      then Raised.other "ZeroDivisionError"
      else Raised.http 404 "event not found"),
  tt,
)

abbrev digits : String → ℕ
digits s = if str_eq s "300000" then 300000 else 0

abbrev stack : Stack
stack = record {
  State = Unit {0};
  routes = routes;
  preflight = λ q. none;
  cors = λ q r. r;
  cors-status = λ q r. refl;
  cors-content = λ q r. refl;
  cors-nosniff = λ q r. refl;
  make_request_id = λ s. "0f3a5b7c9d1e2f40";
  decimal = λ n. "262144";
  duration = λ q. "1.5";
  digits = λ s. some (digits s);
  first_part = λ s. s;
}

abbrev config : Config
config = record { limits = limits; max_body_bytes = 262144; is_production = true }

abbrev get : String → HttpRequest
get path = record {
  method = "GET";
  path = path;
  headers = no_headers;
  client_host = some "10.0.0.1";
  now = 5000000;
  state_request_id = none;
}

abbrev site : Serving counters stack config
site = record { limiter = λ key. []; state = tt }

serve_request-expected_example :
    ((serve_request counters stack config (get "/api/events/7") site).0.status_code ≡ 404)
    × ((serve_request counters stack config (get "/api/events/7") site).0.content
        ≡ http_error "event not found" (some "0f3a5b7c9d1e2f40"))
    × ((serve_request counters stack config (get "/api/events/7") site).0.headers "x-request-id"
        ≡ some "0f3a5b7c9d1e2f40")
unfolding dispatch body_too_large
serve_request-expected_example =
    serve_request-expected counters stack config (get "/api/events/7") site refl

serve_request-nosniff_example :
    is_there (
      (serve_request counters stack config (get "/api/boom") site).0.headers
        "x-content-type-options")
    ≡ false
unfolding dispatch body_too_large
serve_request-nosniff_example =
    serve_request-nosniff counters stack config (get "/api/boom") site refl

-- A body that is too large.
too_large_answer :
    (serve_request counters stack config
      (record (get "/api/events") {
        method = "POST";
        headers = set "content-length" "300000" no_headers;
      })
      site).0.status_code
    ≡ 413
unfolding serve_request max_body_size rate_limit call_routes handle security_headers dispatch
    body_too_large
too_large_answer = refl
