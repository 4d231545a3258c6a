-- ===== src/Bag.antt =====
-- rust/src/bag.rs: MCAP bags in the `synapse/1` profile.
pub mod Profile
pub mod Channel
pub mod Writer
use csyn.Common.{◌++◌}
use csyn.Common.Text.{Text, codes}
use csyn.Common.Result.{Result, map_err, context}

-- `read` is the outcome of `std::fs::read`.
unfoldable pub read_bag : (path : Text) → (read : Result (Unit {0})) → Result (Unit {0})
read_bag path read = map_err (context (codes "failed to read bag " ++ path)) read
