-- ===== src/Incident/Verdict.antt =====
-- The verdict and the recommendation agree.
use replay_forge.Base.{◌≡◌, ◌↔◌, ◌⊎◌, inl, inr, String, Option, arith, Bool-cases}
use replay_forge.Incident.{
  Artifact, Action, Verification, is_measured, recommend_recovery_action, verify_recovery,
}

-- A run is verified exactly if the recommendation is to do nothing or, where messages are left in the
-- streams, to scale the workers; it needs a follow-up exactly if a replay or a check of the workers is
-- recommended.
pub verify_recovery_iff :
    (artifact : Artifact) (base_url : Option String)
    → let action = recommend_recovery_action artifact base_url in
      ((verify_recovery artifact ≡ Verification.verified)
        ↔ ((action ≡ Action.no_action) ⊎ (action ≡ Action.scale_workers)))
      × ((verify_recovery artifact ≡ Verification.needs_follow_up)
          ↔ ((action ≡ Action.replay_dead_letter) ⊎ (action ≡ Action.check_workers)))
unfolding recommend_recovery_action verify_recovery
verify_recovery_iff artifact base_url = elim (Bool-cases (is_measured artifact)) [
  | inl measured ↦ ground arith
  | inr waiting ↦ ground arith
]
