-- ===== src/Main/Sound.antt =====
-- What csyn sends to Zenoh, whatever the command.
use csyn.Common.{
  map, ℕ, List, false, Option, none, some, ◌≡◌, refl, sym, ◌∙◌, All, Bool-cases, inl, inr,
}
use csyn.Common.Text.{Text}
use csyn.Common.Result.{Result, ok}
use csyn.Commands.Trace.{Publication, Trace, lift, puts_of}
use csyn.Bag.{read_bag}
use csyn.Commands.Receive.{topic_list}
use csyn.Commands.Subscribe.{subscribe_until}
use csyn.Commands.Record.{bag_record}
use csyn.Commands.Play.{bag_play}
use csyn.Commands.Publish.{topic_pub}
use csyn.Commands.Info.{bag_info}
use csyn.Commands.Observe.{TopicStats, observe_topic, topic_info, topic_hz, topic_bw}
use csyn.Commands.Typed.{IsTyped, Sends, PutsAll-puts_of, bind-Sends, lift-Sends, print_all-Sends}
use csyn.Commands.Typed.Sending.{topic_pub-Sends, bag_play-Sends}
use csyn.Commands.Typed.Printing.{topic_echo-Sends, bag_export-Sends, run_type-Sends}
use csyn.Zenoh.{open_session}
use csyn.Cli.{
  Cli, Command, build_info, of_topic, of_type, of_bag, of_graph, TopicCommand, BagCommand,
  graph_serve,
}
use csyn.Main.{
  World, Crates, forget, print_lines, print_stats, print_version, run_topic, run_bag, run_graph,
  run_command, main, connected, shutdown_flag,
}

module _ {F W C Config : Type 0} (crates : Crates F W C Config) (fuel : ℕ) (connect : Text) where
  -- The sample is typed, and a session could be opened at the endpoint.
  pub record IsSent (p : Publication) : Type 0 where
    pub typed : IsTyped crates.fbs p
    pub session : open_session crates.zenoh connect ≡ ok tt

  -- The runs that send samples have the session that is opened at the endpoint.
  record IsAt (world : World) : Type 0 where
    publishing : world.published.session ≡ open_session crates.zenoh connect
    playing : (path : Text) → (world.played path).session ≡ open_session crates.zenoh connect

  connected-IsAt : (world : World) → IsAt (connected crates fuel connect world)
  unfolding connected
  connected-IsAt world = record { publishing = refl; playing = λ path. refl }

  forget-Sends : {A : Type 0} (m : Trace A) → Sends IsSent m → Sends IsSent (forget m)
  forget-Sends m h = bind-Sends IsSent m _ h λ a e. tt

  print_lines-Sends : (r : Result (List Text)) → Sends IsSent (print_lines crates fuel r)
  print_lines-Sends r = lift-Sends IsSent r _ λ lines e. print_all-Sends IsSent lines

  print_stats-Sends :
      (world : World) (lines : Text → TopicStats → List Text) (topic : Text) (duration : F)
      → Sends IsSent (print_stats crates fuel world lines topic duration)
  print_stats-Sends world lines topic duration =
      lift-Sends IsSent
        (observe_topic crates.fbs crates.display crates.time world.observed topic duration) _
        λ stats e. print_all-Sends IsSent (lines topic stats)

  run_topic-Sends :
      (world : World) (command : TopicCommand F)
      → IsAt world
      → Sends IsSent (run_topic crates fuel world command)
  unfolding run_topic
  run_topic-Sends world (TopicCommand.topic_list filter ty duration) at = print_lines-Sends (
      topic_list crates.fbs crates.display (subscribe_until crates.time world.subscription duration)
        filter ty world.subscription.polls)
  run_topic-Sends world (TopicCommand.topic_echo topic ty output once raw) at =
      topic_echo-Sends crates.fbs IsSent crates.echo_encoders output raw once
        world.subscription.subscribe topic ty (map (λ t. t.poll) world.subscription.polls)
  run_topic-Sends world (TopicCommand.topic_pub args) at =
      forget-Sends (topic_pub crates.time crates.fbs fuel world.published args) (
        topic_pub-Sends crates.fbs IsSent crates.time fuel world.published args
          λ p typed opened. record { typed = typed; session = sym at.publishing ∙ opened })
  run_topic-Sends world (TopicCommand.topic_info topic duration) at =
      print_stats-Sends world (topic_info crates.fbs crates.version crates.format) topic duration
  run_topic-Sends world (TopicCommand.topic_hz topic duration) at =
      print_stats-Sends world (topic_hz crates.fbs crates.version crates.format) topic duration
  run_topic-Sends world (TopicCommand.topic_bw topic duration) at =
      print_stats-Sends world (topic_bw crates.fbs crates.version crates.format) topic duration

  run_bag-Sends :
      (world : World) (command : BagCommand F)
      → IsAt world
      → Sends IsSent (run_bag crates fuel world command)
  unfolding run_bag
  run_bag-Sends world (BagCommand.bag_record keyexpr output ty source duration max_messages) at =
      forget-Sends
        (lift (
          bag_record crates.time crates.mcap crates.fbs crates.display world.recorded (record {
            output = output;
            keyexpr = keyexpr;
            ty = ty;
            source = source;
            duration = duration;
            max_messages = max_messages;
          })))
        tt
  run_bag-Sends world (BagCommand.bag_info input) at = print_lines-Sends (
      bag_info crates.names crates.seconds (read_bag input (world.info input).contents)
        (world.info input).records (world.info input).stream input)
  run_bag-Sends world (BagCommand.bag_play input rate topic) at =
      let run = record (world.played input) {
        contents = read_bag input (world.played input).contents;
      } in
      forget-Sends (bag_play crates.time crates.fbs crates.names rate topic run) (
        bag_play-Sends crates.fbs IsSent crates.time crates.names rate topic run
          λ p typed opened. record { typed = typed; session = sym (at.playing input) ∙ opened })
  run_bag-Sends world (BagCommand.bag_export input output format topic) at =
      bag_export-Sends crates.fbs IsSent crates.names crates.encoders
        (record (world.exported input) {
          contents = read_bag input (world.exported input).contents;
        })
        output format topic

  run_command-Sends :
      (world : World) (command : Command F)
      → IsAt world
      → Sends IsSent (run_command crates fuel world connect command)
  unfolding run_command run_graph print_version
  run_command-Sends world build_info at = tt
  run_command-Sends world (of_topic command) at = run_topic-Sends world command at
  run_command-Sends world (of_type command) at =
      run_type-Sends crates.fbs IsSent crates.version command
  run_command-Sends world (of_bag command) at = run_bag-Sends world command at
  run_command-Sends world (of_graph (graph_serve bind keyexpr admin_poll_ms)) at = tt

module _ {F W C Config : Type 0} (crates : Crates F W C Config) (fuel : ℕ)
    (installed : Result (Unit {0})) (world : Text → World) (cli : Cli F) where
  abbrev IsSentBy : Publication → Type 0
  IsSentBy = IsSent crates fuel cli.zenoh.connect

  command-Sends :
      (command : Option (Command F))
      → cli.command ≡ command
      → cli.version ≡ false
      → Sends IsSentBy (main crates fuel installed world cli)
  unfolding main
  command-Sends none e v = rw (main, v, e) (lift-Sends IsSentBy crates.print_help _ λ help h. tt)
  command-Sends (some command) e v =
      let connect = cli.zenoh.connect in
      rw (main, v, e)
        (lift-Sends IsSentBy (shutdown_flag crates fuel installed) _ λ u h.
          run_command-Sends crates fuel connect (connected crates fuel connect (world connect))
            command (connected-IsAt crates fuel connect (world connect)))

  -- Whatever the command line is and whatever the router, the file system and the clocks give: each sample that csyn puts
  -- has the value contract of a topic as its encoding, and a payload that the decoder accepts for this topic; and none is put
  -- where no session can be opened at the endpoint of the command line.
  pub main-AreTyped :
      All (IsSent crates fuel cli.zenoh.connect) (puts_of (main crates fuel installed world cli).1)
  unfolding main print_version
  main-AreTyped = PutsAll-puts_of IsSentBy _ (elim (Bool-cases cli.version) [
    | inl v ↦ rw (main, v) tt
    | inr v ↦ command-Sends cli.command refl v
  ])
