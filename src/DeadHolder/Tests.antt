-- ===== src/DeadHolder/Tests.antt =====
-- Caller 3 locks and dies.
use unix_network_programming.Base.{ℕ, refl, ◌⊎◌}
use unix_network_programming.DeadHolder.{
  pitfall_1, pitfall_2, Caller, outside, holding, dead, set, Sys, sys, start, my_lock, dies, Reach,
  here, after,
}
use unix_network_programming.DeadHolder.Holders.{Nobody, HeldBy}
use unix_network_programming.DeadHolder.Undo.{undo-Held}
use unix_network_programming.DeadHolder.Lost.{dead_holder-Nobody}

abbrev three_holds : ℕ → Caller
three_holds = set (λ pid. outside) 3 holding

abbrev three_dead : ℕ → Caller
three_dead = set three_holds 3 dead

abbrev no_adj : ℕ → ℕ
no_adj = set (λ pid. 0) 3 0

abbrev undone : Sys
undone = sys three_dead (set (set (λ pid. 0) 3 1) 3 0) 0

to_undone : Reach pitfall_2 start undone
to_undone = after (after here (my_lock 3 refl)) (dies 3 (λ e. cc))

undo-Held_example : Nobody 0 undone ⊎ ((i : ℕ) × HeldBy 1 i undone)
undo-Held_example = undo-Held undone to_undone

to_held : Reach pitfall_1 start (sys three_holds no_adj 1)
to_held = after here (my_lock 3 refl)

dead_holder-Nobody_example : Nobody 1 (sys three_dead (set no_adj 3 0) 1)
dead_holder-Nobody_example =
    dead_holder-Nobody three_holds no_adj 1 3 (sys three_dead (set no_adj 3 0) 1) to_held refl here
