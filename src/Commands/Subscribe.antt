-- ===== src/Commands/Subscribe.antt =====
-- The subscription that `topic_list` and `topic_echo` of rust/src/main.rs read.
use csyn.Common.{ℕ, List}
use csyn.Common.Text.{Text}
use csyn.Common.Result.{Result, ◌>>◌}
use csyn.Commands.Clock.{StdTime, deadline_after}
use csyn.Commands.Receive.{TimedPoll}

-- What opening the session and subscribing gives, the time then, and the polls before the shutdown.
pub record Subscription : Type 0 where
  pub subscribe : Text → Result (Unit {0})
  pub started : ℕ
  pub polls : List TimedPoll

-- The subscription of `topic_list`, and the deadline that it works out behind it.
unfoldable pub subscribe_until : {F : Type 0} → StdTime F → Subscription → F → Text → Result ℕ
subscribe_until time s duration keyexpr = do
  s.subscribe keyexpr
  deadline_after time s.started duration
