-- ===== src/Context.antt =====
-- src/penampakan/reasoning/context.py: the choice of the observations that the policy sees. A text is
-- the list of its code points. Parameters: JSON encoding and pydantic's dumps (`Writer`), the scores
-- of `observation_relevance_score`, and Unicode stripping. A set is a list without repetition.
pub mod Lines
pub mod Pieces
pub mod Assets
pub mod Select
pub mod Compile
pub mod Truncate
pub mod Sorted
pub mod Space
pub mod Remove
pub mod Closure
pub mod Visible
mod Tests
mod Prefix
