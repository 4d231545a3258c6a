-- ===== src/Commands/Info/Missing.antt =====
-- `bag info` on a channel without a schema.
use csyn.Common.{List, [], ◌∷◌, ◌++◌, Option, none, some, ◌≡◌, refl, map}
use csyn.Common.Result.{Result, ok, panic}
use csyn.Bag.Channel.{Schema}
use csyn.Commands.Stream.{StreamMessage}
use csyn.Commands.Info.{Summary, add_message, info_loop}

-- Where the reader gives messages up to one whose channel has no schema, the loop panics, whatever stands behind.
pub info_loop_panics :
    (s : Summary) (before : List StreamMessage) (m : StreamMessage)
    (rest : List (Result StreamMessage))
    → m.channel.schema ≡ none
    → info_loop s (map ok before ++ (ok m ∷ rest)) ≡ panic
unfolding info_loop
info_loop_panics s [] m rest h = rw (info_loop, h) refl
info_loop_panics s (b ∷ before) m rest h =
    by_schema b.channel.schema refl
      (λ schema. info_loop_panics (add_message b schema s) before m rest h)
  where
    by_schema :
        (o : Option Schema)
        → b.channel.schema ≡ o
        → ((schema : Schema)
            → info_loop (add_message b schema s) (map ok before ++ (ok m ∷ rest)) ≡ panic)
        → info_loop s (map ok (b ∷ before) ++ (ok m ∷ rest)) ≡ panic
    by_schema none e go = rw (info_loop, e) refl
    by_schema (some schema) e go = rw (info_loop, e) (go schema)
