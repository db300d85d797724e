-- ===== src/Prototype/Skiplist/Levels.antt =====
-- generateRandomLevel of Prototype/src/dramSkiplist.cpp.
use hkv.Base.{ℕ, zero, suc, ◌+◌, ◌≤◌, arith}
use hkv.Prototype.Skiplist.{max_level, climb, generate_random_level}

climb_range :
    (draw : ℕ → ℕ) (rand_max rounds k level : ℕ)
    → level ≤ max_level
    → (level ≤ climb draw rand_max rounds k level)
      × (climb draw rand_max rounds k level ≤ max_level)
unfolding climb
climb_range draw rand_max zero k level h = (omega arith, h)
climb_range draw rand_max (suc rounds) k level h =
    ground (arith, climb_range draw rand_max rounds (k + 1) (level + 1))

pub generate_random_level-range :
    (draw : ℕ → ℕ) (rand_max : ℕ)
    → (1 ≤ generate_random_level draw rand_max) × (generate_random_level draw rand_max ≤ max_level)
unfolding generate_random_level
generate_random_level-range draw rand_max = climb_range draw rand_max max_level 0 1 (omega arith)
