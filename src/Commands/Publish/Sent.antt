-- ===== src/Commands/Publish/Sent.antt =====
-- `topic pub` ends, and how many samples it has sent by then.
use csyn.Common.{
  ℕ, zero, suc, ◌+◌, ◌%◌, ◌^◌, ◌<◌, List, [], ◌∷◌, true, false, Option, some, ◌≡◌, refl, arith, leb,
  ◌∙◌, ap,
}
use csyn.Common.Result.{ok}
use csyn.Commands.Trace.{Publication, Event, slept, put, puts_of}
use csyn.Commands.Publish.{PubRun, is_finished, send, pub_loop}

abbrev pub replicate {ℓ} : {A : Type ℓ} → ℕ → A → List A
replicate zero a = []
replicate (suc n) a = a ∷ replicate n a

module _ (run : PubRun) (d : ℕ) (count : Option ℕ) (p : Publication) where
  -- The loop is not over in the first `n` rounds from `round` on, in which `put` succeeds, and it is over in the next.
  abbrev pub EndsAfter : ℕ → ℕ → Type 0
  EndsAfter round zero = is_finished run (some d) count p round round ≡ true
  EndsAfter round (suc n) =
      (is_finished run (some d) count p round round ≡ false)
      × (run.published round ≡ ok tt)
      × EndsAfter (round + 1) n

  -- Where the loop with a delay is over in its n-th round from `round` on, and in none before, and every `put` before
  -- succeeds, fuel for one round more ends it: `n` samples are sent, all of them the one that it was given.
  pub pub_loop-EndsAfter :
      (n fuel round : ℕ)
      → n < fuel
      → round + n < 2 ^ 64
      → EndsAfter round n
      → (events : List Event) × (pub_loop run (some d) count p fuel round round
          ≡ (ok (some (round + n)), events))
        × (puts_of events ≡ replicate n p)
  unfolding pub_loop send puts_of
  pub_loop-EndsAfter n zero round h small e = absurd (omega arith)
  pub_loop-EndsAfter zero (suc fuel) round h small e =
      let same : round ≡ round + 0 = omega arith in
      ([], rw (pub_loop, e) (λ i. (ok (some (same i)), [])), refl)
  pub_loop-EndsAfter (suc n) (suc fuel) round h small (e, q, es) =
      let (events, f, g) = pub_loop-EndsAfter n fuel (round + 1) (omega arith) (omega arith) es in
      let sent : (round + 1) % 2 ^ 64 ≡ round + 1 = omega arith in
      let total : (round + 1) + n ≡ round + suc n = omega arith in
      (
        put p ∷ (slept d ∷ events),
        rw (pub_loop, e, send, q, sent, f) (λ i. (ok (some (total i)), put p ∷ (slept d ∷ events))),
        ap (λ ps. p ∷ ps) g,
      )

-- The first `left` rounds from `round` on are within the limit, and the next is not.
within :
    (run : PubRun) (d limit left round : ℕ) (p : Publication)
    → round + left ≡ limit
    → ((i : ℕ) → run.shutdown i ≡ false)
    → ((i : ℕ) → run.published i ≡ ok tt)
    → EndsAfter run d (some limit) p round left
within run d limit zero round p h s q =
    let reached : leb limit round ≡ true = ground arith in rw (s round, reached) refl
within run d limit (suc left) round p h s q =
    let below : leb limit round ≡ false = ground arith in
    (rw (s round, below) refl, q round, within run d limit left (round + 1) p (omega arith) s q)

-- With a delay and a limit, where no shutdown is asked for and every `put` succeeds, the loop ends by itself, and has
-- sent the sample exactly as often as the limit says.
pub pub_loop_limit :
    (run : PubRun) (d limit fuel : ℕ) (p : Publication)
    → limit < fuel
    → limit < 2 ^ 64
    → ((i : ℕ) → run.shutdown i ≡ false)
    → ((i : ℕ) → run.published i ≡ ok tt)
    → (events : List Event) × (pub_loop run (some d) (some limit) p fuel 0 0
        ≡ (ok (some limit), events))
      × (puts_of events ≡ replicate limit p)
pub_loop_limit run d limit fuel p enough small s q =
    let (events, e, g) =
      pub_loop-EndsAfter run d (some limit) p limit fuel 0 enough (omega arith)
        (within run d limit limit 0 p (omega arith) s q) in
    let total : 0 + limit ≡ limit = omega arith in
    (events, e ∙ (λ i. (ok (some (total i)), events)), g)
