-- ===== src/RateLimit.antt =====
-- api/app/core/security.py: RateLimitMiddleware. Times are numbers of microseconds.
pub mod Window
use Prim.Native.String.{◌++◌ as str_append}
use text.Mathlib.Text.{starts_with}
use replay_forge.Base.{
  ℕ, ◌+◌, ◌*◌, ◌-◌, ◌≡◌, String, Bool, true, false, ◌||◌, List, [], ◌∷◌, ◌++◌, Option, none, some,
  if◌then◌else◌, ltb, ◌==◌, str_eq, keep, count_by, length,
}

-- `zadd(key, {str(now): now})`: a time that is there already stays as it is.
abbrev pub add_score : ℕ → List ℕ → List ℕ
add_score now scores = if count_by (λ t. t == now) scores == 0 then scores ++ now ∷ [] else scores

-- The time is later than `window` before `now`.
abbrev pub in_window : (window now t : ℕ) → Bool
in_window window now t = ltb now (t + window)

-- The sorted sets of the limiter. The key expires a second after the window, when all that it holds
-- is out of the window.
pub record Counters : Type 1 where
  pub Server : Type 0
  pub scores : String → Server → List ℕ
  -- The pipeline, with what `zcard` gives; `none` where the client raises.
  pub pipeline : String → (window now : ℕ) → Server → Option (ℕ × Server)
  pub pipeline-scores :
      (key : String) (window now : ℕ) (s : Server) {n : ℕ} {s' : Server}
      → pipeline key window now s ≡ some (n, s')
      → scores key s' ≡ add_score now (keep (in_window window now) (scores key s))
  pub pipeline-zcard :
      (key : String) (window now : ℕ) (s : Server) {n : ℕ} {s' : Server}
      → pipeline key window now s ≡ some (n, s')
      → n ≡ length (scores key s')
  pub pipeline-other :
      (key : String) (window now : ℕ) (s : Server) {n : ℕ} {s' : Server}
      → pipeline key window now s ≡ some (n, s')
      → (k : String) → str_eq key k ≡ false
      → scores k s' ≡ scores k s

-- A request: its path, its method, the client's address as `_client_ip` gives it, and `time.time()`.
pub record Request : Type 0 where
  pub path : String
  pub method : String
  pub ip : String
  pub now : ℕ

pub record Limits : Type 0 where
  pub write_limit : ℕ
  pub read_limit : ℕ
  pub window : ℕ

-- `path in PUBLIC_PATHS or path.startswith("/health")`
abbrev pub public_paths : List String
public_paths =
    "/health" ∷ "/health/live" ∷ "/health/ready" ∷ "/docs" ∷ "/redoc" ∷ "/openapi.json" ∷ []

abbrev pub is_public : Request → Bool
is_public r =
    ltb 0 (count_by (λ path. str_eq path r.path) public_paths) || starts_with r.path "/health"

abbrev pub is_write : Request → Bool
is_write r =
    str_eq r.method "POST"
    || str_eq r.method "PUT"
    || str_eq r.method "DELETE"
    || str_eq r.method "PATCH"

abbrev pub limit_of : Limits → Request → ℕ
limit_of limits r = if is_write r then limits.write_limit else limits.read_limit

-- `f"rl:{bucket}:{ip}"`
abbrev pub key_of : Request → String
key_of r = str_append (if is_write r then "rl:w:" else "rl:r:") r.ip

-- The request goes on, without the limit or with what is left of it, or is answered with 429.
pub data Verdict : Type 0 where
  unlimited : Verdict
  allowed : (remaining reset_at : ℕ) → Verdict
  refused : (reset_at : ℕ) → Verdict

abbrev pub judge : Limits → Request → ℕ → Verdict
judge limits r count =
    if ltb (limit_of limits r) count
    then refused (r.now + limits.window)
    else allowed (limit_of limits r - count) (r.now + limits.window)

module _ (c : Counters) (limits : Limits) where
  -- Where the pipeline raises the request goes on.
  abbrev pub count_request : Request → c.Server → Option (ℕ × c.Server) → Verdict × c.Server
  count_request r s none = (unlimited, s)
  count_request r s (some (n, s')) = (judge limits r n, s')

  -- `dispatch`
  unfoldable pub dispatch : Request → c.Server → Verdict × c.Server
  dispatch r s =
      if is_public r
      then (unlimited, s)
      else count_request r s (c.pipeline (key_of r) limits.window r.now s)

  -- The verdicts on requests, one after the other, with the server that each meets.
  unfoldable pub dispatch_all : List Request → c.Server → List (Request × c.Server × Verdict)
  dispatch_all [] s = []
  dispatch_all (r ∷ rs) s = let (v, s') = dispatch r s in (r, s, v) ∷ dispatch_all rs s'
