-- ===== src/Commands/Publish/Once.antt =====
-- `topic pub` without a rate.
use csyn.Common.{
  ℕ, suc, [], ◌∷◌, ◌++◌, ◌||◌, Bool, true, false, Option, none, some, ◌≡◌, refl, inl, inr,
  Bool-cases,
}
use csyn.Common.Text.{Text, codes}
use csyn.Common.Bytes.{Bytes}
use csyn.Common.Result.{
  Result, ok, err, panic, map_err, context, Result-cases, is_ok, is_err, is_panic,
}
use csyn.Synapse.{SynapseFbs}
use csyn.Types.Topic.{TopicType, publish_key, require, decode, zenoh_encoding}
use csyn.Commands.Clock.{StdTime}
use csyn.Commands.Trace.{Publication, Trace, ◌>>=◌, lift, put, puts_of}
use csyn.Commands.Record.Loop.{is_reached}
use csyn.Commands.Publish.{TopicPubArgs, PubRun, payload_of, send, pub_loop, delay_of, topic_pub}

-- An error or a panic.
abbrev pub Fails : {A : Type 0} → Result A → Type 0
Fails (ok a) = ⊥
Fails (err e) = Unit
Fails panic = Unit

module _ {F : Type 0} (fbs : SynapseFbs) (run : PubRun) (args : TopicPubArgs F) where
  -- The sample that the arguments ask for, of a payload that decodes as its type, on a session.
  pub record IsReady (p : Publication) : Type 0 where
    pub known : TopicType
    pub text : Text
    pub has_payload : payload_of run.read args.file args.text ≡ ok p.payload
    pub has_key : publish_key fbs args.topic ≡ ok p.key
    pub has_type : require fbs args.ty ≡ ok known
    pub has_encoding : p.encoding ≡ zenoh_encoding fbs known
    pub decodes : decode fbs known p.payload ≡ ok text
    pub connects : run.session ≡ ok tt

  -- One of the calls fails.
  pub data IsRefused : Type 0 where
    no_payload : Fails (payload_of run.read args.file args.text) → IsRefused
    no_key : Fails (publish_key fbs args.topic) → IsRefused
    no_type : Fails (require fbs args.ty) → IsRefused
    undecoded :
        (known : TopicType) (payload : Bytes)
        → require fbs args.ty ≡ ok known
        → payload_of run.read args.file args.text ≡ ok payload
        → Fails (decode fbs known payload)
        → IsRefused
    no_session : Fails run.session → IsRefused
    not_put : Fails (run.published 0) → IsRefused

  -- The loop is over before its first round.
  abbrev pub is_over : Bool
  is_over = run.shutdown 0 || is_reached args.count 0

  -- How the command ends: it fails with one of its calls and sends nothing; it is over at once and sends nothing; or it sends its
  -- sample once, and gives that count.
  pub data EndsOnce (m : Trace (Option ℕ)) : Type 0 where
    refused : IsRefused → Fails m.0 → puts_of m.1 ≡ [] → EndsOnce m
    over : (p : Publication) → IsReady p → is_over ≡ true → m ≡ (ok (some 0), []) → EndsOnce m
    sent :
        (p : Publication) → IsReady p → is_over ≡ false → m ≡ (ok (some 1), put p ∷ []) → EndsOnce m

  lift-EndsOnce :
      {A : Type 0} (r : Result A) (f : A → Trace (Option ℕ))
      → (Fails r → IsRefused)
      → ((a : A) → r ≡ ok a → EndsOnce (f a))
      → EndsOnce (lift r >>= f)
  unfolding puts_of
  lift-EndsOnce (ok a) f g h = h a refl
  lift-EndsOnce (err e) f g h = refused (g tt) tt refl
  lift-EndsOnce panic f g h = refused (g tt) tt refl

  pub_loop-EndsOnce :
      (p : Publication) (fuel : ℕ)
      → IsReady p
      → EndsOnce (pub_loop run none args.count p (suc fuel) 0 0)
  unfolding pub_loop send puts_of
  pub_loop-EndsOnce p fuel ready = elim (Bool-cases is_over) [
    | inl is ↦ rw (pub_loop, is) (over p ready is refl)
    | inr goes ↦ elim (Result-cases (run.published 0)) [
      | is_ok u q ↦ rw (pub_loop, goes, send, q) (sent p ready goes refl)
      | is_err e q ↦ rw (pub_loop, goes, send, q) (refused (not_put (rw q tt)) tt refl)
      | is_panic q ↦ rw (pub_loop, goes, send, q) (refused (not_put (rw q tt)) tt refl)
    ]
  ]

  map_err-Fails :
      {A : Type 0} (r : Result A) (what : Text) → Fails (map_err (context what) r) → Fails r
  map_err-Fails (ok a) what h = h
  map_err-Fails (err e) what h = tt
  map_err-Fails panic what h = tt

  map_err-ok :
      {A : Type 0} (r : Result A) (what : Text) (a : A) → map_err (context what) r ≡ ok a → r ≡ ok a
  map_err-ok (ok b) what a e = e
  map_err-ok (err x) what a e = cc
  map_err-ok panic what a e = cc

  -- Where the rate is not above zero, `topic pub` ends with fuel for one round, whatever `--count`, the file, the session, the
  -- shutdown flag and the outcome of the `put` are: one of its calls fails, and it fails and sends nothing; or the flag is set
  -- at once or the count is zero, and it succeeds and sends nothing; or it sends its sample exactly once and succeeds. The
  -- sample has the payload of the arguments, which decodes as the type, with the key of the topic and the encoding of the type.
  pub topic_pub-EndsOnce :
      (time : StdTime F) (fuel : ℕ)
      → time.is_above_zero args.rate ≡ false
      → EndsOnce (topic_pub time fbs (suc fuel) run args)
  unfolding topic_pub delay_of
  topic_pub-EndsOnce time fuel slow =
      lift-EndsOnce (payload_of run.read args.file args.text) _ no_payload λ payload e1.
        lift-EndsOnce (publish_key fbs args.topic) _ no_key λ key e2.
          lift-EndsOnce (require fbs args.ty) _ no_type λ known e3.
            let what = codes "payload does not match required type " ++ args.ty in
            lift-EndsOnce (map_err (context what) (decode fbs known payload)) _
              (λ h. undecoded known payload e3 e1 (map_err-Fails (decode fbs known payload) what h))
              λ text e4. lift-EndsOnce run.session _ no_session λ u e5.
                let ready : IsReady
                    (record { key = key; payload = payload; encoding = zenoh_encoding fbs known }) =
                  record {
                    known = known;
                    text = text;
                    has_payload = e1;
                    has_key = e2;
                    has_type = e3;
                    has_encoding = refl;
                    decodes = map_err-ok (decode fbs known payload) what text e4;
                    connects = e5;
                  } in
                rw slow (pub_loop-EndsOnce _ fuel ready)
