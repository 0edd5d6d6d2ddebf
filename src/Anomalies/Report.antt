-- ===== src/Anomalies/Report.antt =====
-- What the report on anomalies says of the attempts and of the services.
use replay_forge.Base.{
  ℕ, ◌+◌, ◌*◌, ◌<◌, ◌≡◌, ◌⊎◌, refl, String, Bool, true, false, List, [], ◌∷◌, Option, none, some,
  arith, All, map, keep, count_by, length, length-keep, ltb, count_by-append, group_by,
  group_by-AllGroups, AllGroups, ◌&&◌,
}
use replay_forge.Models.{Event}
use replay_forge.Service.World.{Platform, World, ok}
use replay_forge.Insights.{service_of}
use replay_forge.Anomalies.{
  Anomaly, Stats, service_outlier, ServiceStats, service_stats, if_so, is_spike, is_slower, is_drop,
  half_anomalies, is_outlier, limit_rate, outlier, service_anomalies, AnomalyReport, in_baseline,
  in_recent, is_recent, services, report_anomalies, detect_anomalies,
}
use replay_forge.Anomalies.Halves.{in_lookback, both_halves}
use replay_forge.Anomalies.Few.{HasEvents, outliers_few}

abbrev pub is_service : Anomaly → Bool
is_service (service_outlier service rate) = true
is_service _ = false

not_service :
    (b : Bool) (a : Anomaly) (rest : List Anomaly)
    → is_service a ≡ false
    → count_by is_service rest ≡ 0
    → count_by is_service (if_so b a rest) ≡ 0
not_service true a rest h k = rw h k
not_service false a rest h k = k

half_anomalies_service :
    (lookback_minutes : ℕ) (base rec : Option Stats)
    → count_by is_service (half_anomalies lookback_minutes base rec) ≡ 0
unfolding half_anomalies
half_anomalies_service lookback_minutes (some base) (some rec) =
    not_service (is_spike base rec) _ _ refl (
      not_service (is_slower base rec) _ _ refl
        (not_service (is_drop lookback_minutes base rec) _ [] refl refl))
half_anomalies_service lookback_minutes none rec = refl
half_anomalies_service lookback_minutes (some base) none = refl

all_services : (rs : List ServiceStats) → count_by is_service (map outlier rs) ≡ length rs
all_services [] = refl
all_services (r ∷ rs) = omega (arith, all_services rs)

groups-HasEvents :
    (events : List Event) (gs : List (String × List Event))
    → AllGroups service_of events gs
    → All HasEvents (map service_stats gs)
groups-HasEvents events [] h = tt
groups-HasEvents events ((k, g) ∷ gs) h = (h.1, groups-HasEvents events gs h.2)

-- A service that may be an outlier: more than ten events, and more than a twentieth dead-lettered.
abbrev pub is_candidate : ServiceStats → Bool
is_candidate r = ltb 10 r.total && ltb r.total (20 * r.dlq)

module _ (p : Platform) (lookback_minutes : ℕ) (w : World p) where
  abbrev pub services_now : List ServiceStats
  services_now = services (p.clock w.tick) lookback_minutes (p.tables.rows w.db.events)

  -- The outliers of a report are those of its services.
  outliers_number :
      count_by is_service
        (report_anomalies
          (p.clock w.tick)
          lookback_minutes
          (p.tables.rows w.db.attempts)
          (p.tables.rows w.db.events)).anomalies
      ≡ count_by (is_outlier (limit_rate services_now)) services_now
  unfolding report_anomalies service_anomalies
  outliers_number =
      let r =
        report_anomalies (p.clock w.tick) lookback_minutes (p.tables.rows w.db.attempts)
          (p.tables.rows w.db.events) in
      let halves = half_anomalies lookback_minutes r.baseline r.current in
      let found = keep (is_outlier (limit_rate services_now)) services_now in
      omega (
        arith,
        count_by-append is_service halves (map outlier found),
        half_anomalies_service lookback_minutes r.baseline r.current,
        all_services found,
        length-keep (is_outlier (limit_rate services_now)) services_now,
      )

  -- With rates and averages as exact fractions: each attempt that was finished in the time looked at is
  -- in exactly one of the two halves, and fewer than a third of the services are reported as outliers, or none.
  pub detect_anomalies-few :
      (r : AnomalyReport) × ((detect_anomalies p lookback_minutes w).0 ≡ ok r)
      × (count_by (in_lookback (p.clock w.tick) lookback_minutes) (p.tables.rows w.db.attempts)
          ≡ count_by (in_baseline (p.clock w.tick) lookback_minutes) (p.tables.rows w.db.attempts)
            + count_by (in_recent (p.clock w.tick) lookback_minutes) (p.tables.rows w.db.attempts))
      × ((count_by is_service r.anomalies ≡ 0)
          ⊎ (3 * count_by is_service r.anomalies < length services_now))
  unfolding detect_anomalies report_anomalies service_anomalies
  detect_anomalies-few =
      let read = p.clock w.tick in
      let events = keep (is_recent read lookback_minutes) (p.tables.rows w.db.events) in
      let r =
        report_anomalies read lookback_minutes (p.tables.rows w.db.attempts)
          (p.tables.rows w.db.events) in
      let rs = services_now in
      (
        r,
        refl,
        both_halves read lookback_minutes (p.tables.rows w.db.attempts),
        rw outliers_number (
            outliers_few rs (
              groups-HasEvents events (group_by service_of events)
                (group_by-AllGroups service_of events))),
      )
