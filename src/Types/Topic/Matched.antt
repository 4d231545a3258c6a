-- ===== src/Types/Topic/Matched.antt =====
-- That a publisher and a subscriber with the same argument meet.
use csyn.Common.{List, [], ◌∷◌}
use csyn.Common.Text.{Text, codes}

-- The key expressions of Zenoh, by the parts between their slashes: `*` stands for one part and `**` for any number of them.
pub data Matches : (expression key : List Text) → Type 0 where
  both_end : Matches [] []
  same_part : {es ks : List Text} (part : Text) → Matches es ks → Matches (part ∷ es) (part ∷ ks)
  one_part :
      {es ks : List Text} (part : Text) → Matches es ks → Matches (codes "*" ∷ es) (part ∷ ks)
  no_part : {es ks : List Text} → Matches es ks → Matches (codes "**" ∷ es) ks
  more_parts :
      {es ks : List Text} (part : Text)
      → Matches (codes "**" ∷ es) ks
      → Matches (codes "**" ∷ es) (part ∷ ks)
