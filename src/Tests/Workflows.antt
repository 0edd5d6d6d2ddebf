-- ===== src/Tests/Workflows.antt =====
-- The theorem of Workflows at a concrete input.
use replay_forge.Base.{[], ◌∷◌}
use replay_forge.Workflows.{get_workflow}
use replay_forge.Workflows.Parts.{IsAnswer, get_workflow-IsAnswer}
use replay_forge.Tests.Services.{platform}
use replay_forge.Tests.Data.{dead, dead_world}

get_workflow-IsAnswer_example :
    IsAnswer platform dead_world (dead ∷ []) (get_workflow platform "checkout_1" dead_world)
get_workflow-IsAnswer_example = get_workflow-IsAnswer platform "checkout_1" dead_world
