-- ===== src/Insights/Histogram.antt =====
-- latency_histogram of api/app/api/insights.py: the counts of its intervals.
use replay_forge.Base.{
  ℕ, zero, suc, ◌<◌, ◌≤◌, ◌≡◌, refl, ◌∙◌, ap, Bool, not, ◌&&◌, ◌||◌, List, [], ◌∷◌, Option, none,
  some, ltb, count_by, length, arith, sum_by,
}
use replay_forge.Models.{ℤ, pos, negsuc}
use replay_forge.Service.World.{Platform, World, ok}
use replay_forge.Metrics.{durations_of}
use replay_forge.Insights.{
  LatencyHistogram, below, place_of, upper_ends, count_at, counts_of, latency_histogram,
}

-- From `low` on, and below `high` if there is one. What is below 0 is in the interval from 0.
abbrev pub in_interval : ℕ → Option ℕ → ℤ → Bool
in_interval low none d = not (below d low)
in_interval low (some high) d = (ltb low 1 || not (below d low)) && below d high

-- The ten intervals, from an end of one to the next.
abbrev pub in_intervals : List ℤ → List ℕ
in_intervals ds =
    count_by (in_interval 0 (some 25)) ds
    ∷ count_by (in_interval 25 (some 50)) ds
    ∷ count_by (in_interval 50 (some 75)) ds
    ∷ count_by (in_interval 75 (some 100)) ds
    ∷ count_by (in_interval 100 (some 150)) ds
    ∷ count_by (in_interval 150 (some 200)) ds
    ∷ count_by (in_interval 200 (some 300)) ds
    ∷ count_by (in_interval 300 (some 500)) ds
    ∷ count_by (in_interval 500 (some 1000)) ds
    ∷ count_by (in_interval 1000 none) ds
    ∷ []

count_at-in_intervals :
    (d : ℤ) (ds : List ℤ)
    → count_at (place_of d upper_ends) (in_intervals ds) ≡ in_intervals (d ∷ ds)
count_at-in_intervals (negsuc a) ds = refl
count_at-in_intervals (pos a) ds = ground arith

counts_of-in_intervals : (ds : List ℤ) → counts_of ds ≡ in_intervals ds
counts_of-in_intervals [] = refl
counts_of-in_intervals (d ∷ ds) =
    ap (count_at (place_of d upper_ends)) (counts_of-in_intervals ds) ∙ count_at-in_intervals d ds

length-count_at : (i : ℕ) (cs : List ℕ) → length (count_at i cs) ≡ length cs
length-count_at i [] = refl
length-count_at zero (c ∷ cs) = refl
length-count_at (suc i) (c ∷ cs) = omega (arith, length-count_at i cs)

sum_by-count_at :
    (i : ℕ) (cs : List ℕ)
    → i < length cs
    → sum_by (λ n. n) (count_at i cs) ≡ suc (sum_by (λ n. n) cs)
sum_by-count_at i [] h = absurd (omega arith)
sum_by-count_at zero (c ∷ cs) h = omega arith
sum_by-count_at (suc i) (c ∷ cs) h = omega (arith, sum_by-count_at i cs (omega arith))

place_of_le : (d : ℤ) (his : List ℕ) → place_of d his ≤ length his
place_of_le d [] = omega arith
place_of_le d (hi ∷ his) = ground (arith, place_of_le d his)

length-counts_of : (ds : List ℤ) → length (counts_of ds) ≡ 10
length-counts_of [] = refl
length-counts_of (d ∷ ds) =
    omega (arith, length-count_at (place_of d upper_ends) (counts_of ds), length-counts_of ds)

sum_by-counts_of : (ds : List ℤ) → sum_by (λ n. n) (counts_of ds) ≡ length ds
sum_by-counts_of [] = refl
sum_by-counts_of (d ∷ ds) =
    let inside : place_of d upper_ends < length (counts_of ds) =
      omega (arith, place_of_le d upper_ends, length-counts_of ds) in
    omega
      (arith, sum_by-count_at (place_of d upper_ends) (counts_of ds) inside, sum_by-counts_of ds)

-- The histogram always answers: its ten counts are the numbers of durations in the ten intervals, a
-- negative duration counting in the first, and they add up to its total, the number of durations.
pub latency_histogram-in_intervals :
    (p : Platform) (w : World p)
    → let ds = durations_of (p.tables.rows w.db.attempts) in
      (h : LatencyHistogram) × ((latency_histogram p w).0 ≡ ok h)
      × (h.counts ≡ in_intervals ds)
      × (sum_by (λ n. n) h.counts ≡ h.total)
      × (h.total ≡ length ds)
unfolding latency_histogram
latency_histogram-in_intervals p w =
    let ds = durations_of (p.tables.rows w.db.attempts) in
    (_, refl, counts_of-in_intervals ds, sum_by-counts_of ds, refl)
