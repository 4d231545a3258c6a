-- ===== src/Graph/Listen.antt =====
-- The thread of `serve` in rust/src/graph.rs that accepts connections. What the listener gives is an input: the loop runs over
-- its calls of `accept` before the shutdown. Each connection becomes a thread of its own (Graph/Serve).
use csyn.Common.{ℕ, List, [], ◌∷◌, ◌++◌}
use csyn.Common.Text.{Text, codes}
use csyn.Common.Result.{Result, Error, ok, err, ◌>>◌, map_err, context}
use csyn.Graph.State.{new}
use csyn.Graph.Serve.{System, serve}

pub record GraphConfig : Type 0 where
  pub connect : Text
  pub bind : Text
  pub keyexpr : Text
  -- In milliseconds.
  pub admin_poll : ℕ

-- What `listener.accept()` gives.
pub data Accepted : Type 0 where
  connected : Accepted
  would_block : Accepted
  accept_failed : Error → Accepted

pub record ListenRun : Type 0 where
  pub started : ℕ
  pub bind : Text → Result (Unit {0})
  pub nonblocking : Result (Unit {0})
  pub accepts : List Accepted

unfoldable pub accept_loop : List Accepted → Result (Unit {0})
accept_loop [] = ok tt
accept_loop (connected ∷ accepts) = accept_loop accepts
accept_loop (would_block ∷ accepts) = accept_loop accepts
accept_loop (accept_failed e ∷ accepts) = err e

-- The system that the threads start in, and what `serve` returns.
unfoldable pub listen : ListenRun → GraphConfig → System × Result (Unit {0})
listen run config = (serve (new config.connect config.keyexpr run.started), served)
  where
    served : Result (Unit {0})
    served = do
      map_err (context (codes "failed to bind graph server to " ++ config.bind))
          (run.bind config.bind)
      map_err (context (codes "failed to set graph server nonblocking")) run.nonblocking
      accept_loop run.accepts
