-- ===== src/Tests/RateLimit.antt =====
-- The theorem of RateLimit at a concrete input.
use replay_forge.Base.{
  ℕ, ◌≡◌, ◌∙◌, refl, sym, ap, String, List, [], ◌∷◌, Option, none, some, if◌then◌else◌, str_eq,
  eq_iff, length, keep, arith, map,
}
use replay_forge.RateLimit.{
  Counters, Request, Limits, allowed, refused, add_score, in_window, dispatch, dispatch_all,
}
use replay_forge.RateLimit.Window.{FollowsWindow, dispatch_all-Window}

abbrev Sets : Type 0
Sets = String → List ℕ

abbrev updated : String → ℕ → ℕ → Sets → List ℕ
updated key window now s = add_score now (keep (in_window window now) (s key))

abbrev pipeline : String → ℕ → ℕ → Sets → Option (ℕ × Sets)
pipeline key window now s =
    some (
      length (updated key window now s),
      λ k. if str_eq key k then updated key window now s else s k,
    )

-- What a key has after the pipeline.
abbrev after : String → Sets → Option (ℕ × Sets) → List ℕ
after k s none = s k
after k s (some (n, s')) = s' k

abbrev count_after : Option (ℕ × Sets) → ℕ
count_after none = 0
count_after (some (n, s')) = n

pub own_scores :
    (key : String) (window now : ℕ) (s : Sets) {n : ℕ} {s' : Sets}
    → pipeline key window now s ≡ some (n, s')
    → s' key ≡ updated key window now s
own_scores key window now s e = sym (ap (after key s) e) ∙ rw ((eq_iff key key).1 refl) refl

abbrev pub counters : Counters
counters = record {
  Server = Sets;
  scores = λ k s. s k;
  pipeline = pipeline;
  pipeline-scores = own_scores;
  pipeline-zcard = λ key window now s e.
      sym (ap count_after e) ∙ ap length (sym (own_scores key window now s e));
  pipeline-other = λ key window now s e k other. sym (ap (after k s) e) ∙ rw other refl;
}

abbrev pub limits : Limits
limits = record { write_limit = 2; read_limit = 3; window = 60 }

abbrev write_at : ℕ → Request
write_at t = record { path = "/api/events"; method = "POST"; ip = "10.0.0.1"; now = t }

-- The third request within a minute is one too many, and so is the fourth, since the third was
-- counted; the last has none before it in its window.
abbrev requests : List Request
requests = write_at 10 ∷ write_at 20 ∷ write_at 30 ∷ write_at 75 ∷ write_at 140 ∷ []

verdicts :
    map (λ o. o.2) (dispatch_all counters limits requests (λ k. []))
    ≡ allowed 1 70 ∷ allowed 0 80 ∷ refused 90 ∷ refused 135 ∷ allowed 1 200 ∷ []
unfolding dispatch_all dispatch
verdicts = refl

dispatch_all-Window_example :
    FollowsWindow counters limits "rl:w:10.0.0.1" []
      (dispatch_all counters limits requests (λ k. []))
dispatch_all-Window_example =
    dispatch_all-Window counters limits "rl:w:10.0.0.1" requests (λ k. []) 0
      (omega arith, (omega arith, (omega arith, (omega arith, (omega arith, tt))))) refl
