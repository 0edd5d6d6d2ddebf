-- ===== src/Runs/Places.antt =====
-- _percentile of scripts/benchmark_replay.py and scripts/chaos_replay.py.
use replay_forge.Base.{
  ℕ, zero, suc, ◌*◌, ◌-◌, ◌≤◌, List, [], ◌∷◌, Option, none, some, leb, leb→le, leb_trans, leb_total,
  if◌then◌else◌, length, sorted, sorted-IsAscending, length-sorted, get_elem?-IsAscending,
  get_elem?-some, round_half_even, arith,
}
use replay_forge.Runs.{percentile}

-- One percentile is at most the other; there is none of either or one of both.
abbrev pub AtMost : Option ℕ → Option ℕ → Type 0
AtMost none none = Unit {0}
AtMost (some a) (some b) = a ≤ b
AtMost none (some b) = ⊥
AtMost (some a) none = ⊥

round_half_even_mono : (a b : ℕ) → a ≤ b → round_half_even a 100 ≤ round_half_even b 100
unfolding round_half_even
round_half_even_mono a b h = ground arith

mul_mono : (a b n : ℕ) → a ≤ b → a * n ≤ b * n
mul_mono a b zero h = omega arith
mul_mono a b (suc n) h = omega (arith, mul_mono a b n h)

-- The place that a percentile takes.
abbrev place : ℕ → ℕ → ℕ
place pct last =
    let index = round_half_even (pct * last) 100 in if leb last index then last else index

place_mono : (a b last : ℕ) → a ≤ b → place a last ≤ place b last
place_mono a b last h =
    ground (arith, round_half_even_mono (a * last) (b * last) (mul_mono a b last h))

place_le : (a last : ℕ) → place a last ≤ last
place_le a last = ground arith

-- Of two percentiles of the same values the higher is not smaller: there are both, or neither.
pub percentile-AtMost : (vs : List ℕ) (a b : ℕ) → a ≤ b → AtMost (percentile vs a) (percentile vs b)
unfolding percentile
percentile-AtMost [] a b h = tt
percentile-AtMost (v ∷ vs) a b h =
    let ordered = sorted leb (v ∷ vs) in
    let last = length ordered - 1 in
    let many = length-sorted leb (v ∷ vs) in
    let (low, el) = get_elem?-some ordered (place a last) (omega (arith, many, place_le a last)) in
    let (high, eh) = get_elem?-some ordered (place b last) (omega (arith, many, place_le b last)) in
    let in_order =
      get_elem?-IsAscending leb leb_trans leb_total ordered (place a last) (place b last)
        (sorted-IsAscending leb leb_trans leb_total (v ∷ vs)) (place_mono a b last h) el eh in
    rw (el, eh) (leb→le low high in_order)
