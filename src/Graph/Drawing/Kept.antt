-- ===== src/Graph/Drawing/Kept.antt =====
-- What a drawing keeps while it grows: every node as it is, and every link.
use csyn.Common.{List, [], ◌∷◌, ◌++◌, some, ◌≡◌, refl, ◌⊎◌, inl, inr, ◌∙◌, ap, map, Bool-cases}
use csyn.Common.Text.{Text, list_eq}
use csyn.Common.Map.{get, values, BTreeMap}
use csyn.Common.Map.Laws.{get-or_insert}
use csyn.Common.Result.{Result, ok, err, panic, ◌>>=◌}
use csyn.Graph.Drawing.{GraphNode, GraphLink, Drawing, or_insert_node, push_link}

-- An element of a list.
abbrev pub IsAmong : {A : Type 0} → A → List A → Type 0
IsAmong x [] = ⊥
IsAmong x (y ∷ ys) = (y ≡ x) ⊎ IsAmong x ys

pub record Keeps (d d' : Drawing) : Type 0 where
  pub node : (id : Text) (n : GraphNode) → get id d.nodes ≡ some n → get id d'.nodes ≡ some n
  pub link : (l : GraphLink) → IsAmong l d.links → IsAmong l d'.links

-- If the result is a drawing, it keeps what `d` has.
abbrev pub Keeping : Drawing → Result Drawing → Type 0
Keeping d (ok d') = Keeps d d'
Keeping d (err e) = Unit
Keeping d panic = Unit

pub Keeps-refl : (d : Drawing) → Keeps d d
Keeps-refl d = record { node = λ id n e. e; link = λ l h. h }

pub Keeps-trans : (d e f : Drawing) → Keeps d e → Keeps e f → Keeps d f
Keeps-trans d e f h k = record {
  node = λ id n g. k.node id n (h.node id n g);
  link = λ l i. k.link l (h.link l i);
}

pub Keeping-bind :
    (d : Drawing) (r : Result Drawing) (f : Drawing → Result Drawing)
    → Keeping d r
    → ((d' : Drawing) → Keeping d' (f d'))
    → Keeping d (r >>= f)
Keeping-bind d (err e) f h k = tt
Keeping-bind d panic f h k = tt
Keeping-bind d (ok d') f h k = both (f d') (k d')
  where
    both : (r : Result Drawing) → Keeping d' r → Keeping d r
    both (ok d'') h' = Keeps-trans d d' d'' h h'
    both (err e) h' = tt
    both panic h' = tt

pub or_insert_node-Keeps : (node : GraphNode) (d : Drawing) → Keeps d (or_insert_node node d)
unfolding or_insert_node
or_insert_node-Keeps node d = record {
  node = λ id n e. get-or_insert id node.id node d.nodes ∙ rw e refl;
  link = λ l h. h;
}

IsAmong-append : {A : Type 0} (x : A) (xs ys : List A) → IsAmong x xs → IsAmong x (xs ++ ys)
IsAmong-append x [] ys h = absurd h
IsAmong-append x (y ∷ xs) ys (inl e) = inl e
IsAmong-append x (y ∷ xs) ys (inr h) = inr (IsAmong-append x xs ys h)

IsAmong-last : {A : Type 0} (x : A) (xs : List A) → IsAmong x (xs ++ (x ∷ []))
IsAmong-last x [] = inl refl
IsAmong-last x (y ∷ xs) = inr (IsAmong-last x xs)

pub IsAmong-map :
    {A B : Type 0} (f : A → B) (x : A) (xs : List A) → IsAmong x xs → IsAmong (f x) (map f xs)
IsAmong-map f x [] h = absurd h
IsAmong-map f x (y ∷ xs) (inl e) = inl (ap f e)
IsAmong-map f x (y ∷ xs) (inr h) = inr (IsAmong-map f x xs h)

pub push_link-Keeps : (l : GraphLink) (d : Drawing) → Keeps d (push_link l d)
unfolding push_link
push_link-Keeps l d = record {
  node = λ id n e. e;
  link = λ k h. IsAmong-append k d.links (l ∷ []) h;
}

pub push_link-IsAmong : (l : GraphLink) (d : Drawing) → IsAmong l (push_link l d).links
unfolding push_link
push_link-IsAmong l d = IsAmong-last l d.links

pub some_inj : {A : Type 0} {a b : A} → some a ≡ some b → a ≡ b
some_inj e = cc

pub get-IsAmong :
    {V : Type 0} (key : Text) (m : BTreeMap V) (v : V) → get key m ≡ some v → IsAmong v (values m)
unfolding get values
get-IsAmong key [] v e = cc
get-IsAmong key ((k, w) ∷ m) v e = elim (Bool-cases (list_eq k key)) [
  | inl same ↦ inl (some_inj (rw (get, same) at e))
  | inr other ↦ inr (get-IsAmong key m v (rw (get, other) at e))
]
