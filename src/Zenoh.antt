-- ===== src/Zenoh.antt =====
-- rust/src/zenoh_util.rs, and the subscriptions that the commands of rust/src/main.rs make. The `zenoh` crate is a
-- parameter; a session and a subscriber are known by whether they could be had.
pub mod Endpoints
pub mod Configured
use csyn.Common.{List, [], ◌∷◌, ◌++◌, if◌then◌else◌}
use csyn.Common.Text.{Text, codes, list_eq}
use csyn.Common.Result.{Result, Error, ok, err, panic, with_hint, context, ◌>>=◌, ◌>>◌, map_err}

-- `zenoh::config::Config` and `zenoh::open`
pub record ZenohCrate (Config : Type 0) : Type 0 where
  pub default : Config
  pub insert_json5 : Config → (key value : Text) → Result Config
  pub open_with : Config → Result (Unit {0})

abbrev pub default_connect : Text
default_connect = codes "tcp/127.0.0.1:7447"

abbrev newline : Text
newline = 10 ∷ []

-- The lines of the hint; both branches of the source name the default endpoint.
unfoldable pub connection_hint : Text → Text
connection_hint connect =
    codes "hint: make sure a Zenoh router is reachable at `"
    ++ (connect
        ++ (codes "`."
            ++ (newline
                ++ ((if list_eq connect default_connect
                      then codes "start a local router in another terminal with:"
                      else codes "for a local router, use:")
                    ++ (newline
                        ++ (codes "  zenohd -l "
                            ++ (default_connect
                                ++ (newline
                                    ++ (codes "or point csyn at an existing router with:"
                                        ++ (newline
                                            ++ (codes "  csyn --connect tcp/<host>:7447 topic list"
                                                ++ (newline
                                                    ++ codes
                                                        "  CSYN_CONNECT=tcp/<host>:7447 csyn topic list"))))))))))))

-- `format!("[\"{connect}\"]")`
unfoldable pub endpoints_of : Text → Text
endpoints_of connect = b'[' ∷ (b'"' ∷ (connect ++ (b'"' ∷ (b']' ∷ []))))

abbrev pub client_mode : Text
client_mode = b'"' ∷ (codes "client" ++ (b'"' ∷ []))

module _ {Config : Type 0} (zenoh : ZenohCrate Config) where
  unfoldable pub config : Text → Result Config
  config connect = do
    moded ←
        map_err (context (codes "failed to configure Zenoh mode"))
          (zenoh.insert_json5 zenoh.default (codes "mode") client_mode)
    map_err (context (codes "failed to configure Zenoh endpoint"))
        (zenoh.insert_json5 moded (codes "connect/endpoints") (endpoints_of connect))

  unfoldable pub open_session : Text → Result (Unit {0})
  open_session connect = do
    c ← config connect
    map_err
        (λ e.
          with_hint (context (codes "failed to open Zenoh session at " ++ connect) e)
            (connection_hint connect))
        (zenoh.open_with c)

  -- `open_session(&connect)?` and `declare_subscriber(keyexpr.clone()).wait()`, whose outcome is `declare`.
  unfoldable pub subscribe_at :
      (connect : Text) → (declare : Text → Result (Unit {0})) → Text → Result (Unit {0})
  subscribe_at connect declare keyexpr = do
    open_session connect
    map_err (context (codes "failed to subscribe to " ++ keyexpr)) (declare keyexpr)
