-- ===== src/Progression.antt =====
-- internal/progression: voting for the next unlock, the unlock checks with their cache, and the
-- modifiers with theirs. Names are numbers, times are nanoseconds.
pub mod Tree
pub mod Voting
pub mod Unlocks
pub mod Modifiers
