-- ===== src/Zenoh/Configured.antt =====
-- The configuration that a session of rust/src/zenoh_util.rs is opened with.
use csyn.Common.{Bool, true, List, ◌∷◌, some, ◌≡◌, refl, ◌∙◌, All}
use csyn.Common.Text.{Text, codes}
use csyn.Common.Result.{ok}
use csyn.Zenoh.{ZenohCrate, client_mode, endpoints_of, config, open_session}
use csyn.Zenoh.Endpoints.{read_list, IsPlain, in_one_text, read_list-endpoints_of}

-- What the `zenoh` crate promises of a configuration: the mode can be set to `client`, and the endpoints by a JSON5 list of texts
-- each of which is an endpoint; a change of the one keeps the other.
pub record Configures {Config : Type 0} (zenoh : ZenohCrate Config) : Type 0 where
  pub mode : Config → Text
  pub endpoints : Config → List Text
  pub is_endpoint : Text → Bool
  pub sets_client :
      (c : Config)
      → (c' : Config) × (zenoh.insert_json5 c (codes "mode") client_mode ≡ ok c')
        × (mode c' ≡ codes "client")
        × (endpoints c' ≡ endpoints c)
  pub sets_endpoints :
      (c : Config) (value : Text) (items : List Text)
      → read_list value ≡ some items
      → All (λ item. is_endpoint item ≡ true) items
      → (c' : Config) × (zenoh.insert_json5 c (codes "connect/endpoints") value ≡ ok c')
        × (endpoints c' ≡ items)
        × (mode c' ≡ mode c)

module _ {Config : Type 0} (zenoh : ZenohCrate Config) (promises : Configures zenoh) where
  -- The argument gives a configuration of a client with these endpoints, and a session is opened with it.
  abbrev pub IsConfiguredAs : (connect : Text) → List Text → Type 0
  IsConfiguredAs connect items =
      (c : Config) × (config zenoh connect ≡ ok c)
      × (promises.mode c ≡ codes "client")
      × (promises.endpoints c ≡ items)
      × (zenoh.open_with c ≡ ok tt → open_session zenoh connect ≡ ok tt)

  -- Where the endpoints hold no double quote, no backslash and no line break: if the argument is the endpoints `first` and `rest`
  -- with `","` between two of them, the configuration succeeds, and is that of a client with exactly these endpoints; where a
  -- session can be opened with it, `open_session` succeeds. With no `rest` that is the one endpoint that was asked for.
  pub config-endpoints :
      (first : Text) (rest : List Text)
      → All IsPlain first
      → All (All IsPlain) rest
      → All (λ item. promises.is_endpoint item ≡ true) (first ∷ rest)
      → IsConfiguredAs (in_one_text first rest) (first ∷ rest)
  unfolding config open_session
  config-endpoints first rest plain plains valid =
      let connect = in_one_text first rest in
      let (c1, e1, m1, p1) = promises.sets_client zenoh.default in
      let (c2, e2, p2, m2) =
        promises.sets_endpoints c1 (endpoints_of connect) (first ∷ rest)
          (read_list-endpoints_of first rest plain plains) valid in
      let done : config zenoh connect ≡ ok c2 = rw (config, e1, e2) refl in
      (c2, done, m2 ∙ m1, p2, λ opened. rw (open_session, done, opened) refl)
