-- ===== src/Main.antt =====
-- `main` of rust/src/main.rs, and the functions that take a command to the one that runs it.
pub mod Sound
use csyn.Common.{ℕ, List, [], ◌∷◌, ◌++◌, true, false, Option, none, some, map}
use csyn.Common.Text.{Text, codes}
use csyn.Common.Result.{Result, Error, ok, err, panic, context, map_err}
use csyn.Synapse.{SynapseFbs}
use csyn.Bag.{read_bag}
use csyn.Bag.Profile.{McapNames, Record}
use csyn.Bag.Writer.{McapWriter}
use csyn.Graph.Listen.{GraphConfig, ListenRun, listen}
use csyn.Commands.Clock.{StdTime}
use csyn.Commands.Receive.{topic_list}
use csyn.Commands.Subscribe.{Subscription, subscribe_until}
use csyn.Commands.Record.{RecordRun, bag_record}
use csyn.Commands.Trace.{Event, printed, Trace, ◌>>=◌, ◌>>◌, lift, emit, print_all}
use csyn.Commands.Stream.{StreamMessage}
use csyn.Commands.Play.{PlayRun, bag_play}
use csyn.Commands.Publish.{PubRun, topic_pub}
use csyn.Commands.Observe.{
  ObserveRun, TopicStats, Format, observe_topic, topic_info, topic_hz, topic_bw,
}
use csyn.Commands.Print.{EchoEncoders}
use csyn.Commands.Echo.{topic_echo}
use csyn.Commands.Export.{Encoders, ExportRun, bag_export}
use csyn.Commands.Info.{bag_info}
use csyn.Commands.TypeInfo.{TypeCommand, run_type}
use csyn.Zenoh.{ZenohCrate, open_session, subscribe_at}
use csyn.Cli.{
  Cli, Command, build_info, of_topic, of_type, of_bag, of_graph, TopicCommand, BagCommand,
  GraphCommand, graph_serve,
}

-- What `bag info` reads.
pub record BagFile : Type 0 where
  pub contents : Result (Unit {0})
  pub records : Result (List (Result Record))
  pub stream : Result (List (Result StreamMessage))

-- What the router at one endpoint, the file system, the clocks and the listener give to the command that runs. In `main`, a
-- run's `subscribe` is first the outcome of `declare_subscriber`, and its `session` is replaced.
pub record World : Type 0 where
  pub subscription : Subscription
  pub observed : ObserveRun
  pub published : PubRun
  pub recorded : RecordRun
  pub info : Text → BagFile
  pub played : Text → PlayRun
  pub exported : Text → ExportRun
  pub listener : ListenRun

-- The code that is not part of the repository.
pub record Crates (F W C Config : Type 0) : Type 0 where
  pub time : StdTime F
  pub mcap : McapWriter W C
  pub fbs : SynapseFbs
  pub names : McapNames
  pub zenoh : ZenohCrate Config
  pub display : Error → Text
  pub echo_encoders : EchoEncoders
  pub encoders : Encoders
  pub format : Format
  pub seconds : ℕ → Text
  pub version : Text
  pub csyn_version : Text
  pub print_help : Result Text

-- What is left of a result when its value is dropped.
abbrev pub forget : {A : Type 0} → Trace A → Trace (Unit {0})
forget m = m >> lift (ok tt)

module _ {F W C Config : Type 0} (crates : Crates F W C Config) (fuel : ℕ) where
  abbrev pub print_lines : Result (List Text) → Trace (Unit {0})
  print_lines r = do lines ← lift r; print_all lines

  unfoldable pub print_version : Trace (Unit {0})
  print_version = emit (
      printed (
        codes "csyn "
        ++ (crates.csyn_version ++ (codes " (synapse_fbs " ++ (crates.version ++ codes ")")))))

  -- `observe_topic`, and the lines about what it gives.
  abbrev pub print_stats :
      World → (Text → TopicStats → List Text) → (topic : Text) → (duration : F) → Trace (Unit {0})
  print_stats world lines topic duration = do
    stats ← lift (observe_topic crates.fbs crates.display crates.time world.observed topic duration)
    print_all (lines topic stats)

  unfoldable pub run_topic : World → TopicCommand F → Trace (Unit {0})
  run_topic world (TopicCommand.topic_list filter ty duration) = print_lines (
      topic_list crates.fbs crates.display (subscribe_until crates.time world.subscription duration)
        filter ty world.subscription.polls)
  run_topic world (TopicCommand.topic_echo topic ty output once raw) =
      topic_echo crates.fbs crates.echo_encoders output raw once world.subscription.subscribe topic
        ty (map (λ t. t.poll) world.subscription.polls)
  run_topic world (TopicCommand.topic_pub args) =
      forget (topic_pub crates.time crates.fbs fuel world.published args)
  run_topic world (TopicCommand.topic_info topic duration) =
      print_stats world (topic_info crates.fbs crates.version crates.format) topic duration
  run_topic world (TopicCommand.topic_hz topic duration) =
      print_stats world (topic_hz crates.fbs crates.version crates.format) topic duration
  run_topic world (TopicCommand.topic_bw topic duration) =
      print_stats world (topic_bw crates.fbs crates.version crates.format) topic duration

  unfoldable pub run_bag : World → BagCommand F → Trace (Unit {0})
  run_bag world (BagCommand.bag_record keyexpr output ty source duration max_messages) = forget (
      lift (
        bag_record crates.time crates.mcap crates.fbs crates.display world.recorded (record {
          output = output;
          keyexpr = keyexpr;
          ty = ty;
          source = source;
          duration = duration;
          max_messages = max_messages;
        })))
  run_bag world (BagCommand.bag_info input) = print_lines (
      bag_info crates.names crates.seconds (read_bag input (world.info input).contents)
        (world.info input).records (world.info input).stream input)
  run_bag world (BagCommand.bag_play input rate topic) = forget (
      bag_play crates.time crates.fbs crates.names rate topic
        (record (world.played input) { contents = read_bag input (world.played input).contents }))
  run_bag world (BagCommand.bag_export input output format topic) =
      bag_export crates.fbs crates.names crates.encoders
        (record (world.exported input) {
          contents = read_bag input (world.exported input).contents;
        })
        output format topic

  unfoldable pub run_graph : World → (connect : Text) → GraphCommand → Trace (Unit {0})
  run_graph world connect (graph_serve bind keyexpr admin_poll_ms) =
      lift
        (listen world.listener (record {
          connect = connect;
          bind = bind;
          keyexpr = keyexpr;
          admin_poll = admin_poll_ms;
        })).1

  unfoldable pub run_command : World → (connect : Text) → Command F → Trace (Unit {0})
  run_command world connect build_info = print_version
  run_command world connect (of_topic command) = run_topic world command
  run_command world connect (of_type command) = run_type crates.fbs crates.version command
  run_command world connect (of_bag command) = run_bag world command
  run_command world connect (of_graph command) = run_graph world connect command

  -- Each run that asks for a session opens one at `connect`.
  unfoldable pub connected : (connect : Text) → World → World
  connected connect world = record world {
    subscription = record world.subscription {
      subscribe = subscribe_at crates.zenoh connect world.subscription.subscribe;
    };
    observed = record world.observed {
      subscribe = subscribe_at crates.zenoh connect world.observed.subscribe;
    };
    recorded = record world.recorded {
      subscribe = subscribe_at crates.zenoh connect world.recorded.subscribe;
    };
    published = record world.published { session = open_session crates.zenoh connect };
    played = λ path. record (world.played path) { session = open_session crates.zenoh connect };
  }

  -- `installed` is the outcome of `ctrlc::set_handler`.
  unfoldable pub shutdown_flag : (installed : Result (Unit {0})) → Result (Unit {0})
  shutdown_flag installed = map_err (context (codes "failed to install Ctrl-C handler")) installed

  -- `main`, where the world depends on the endpoint.
  unfoldable pub main : (installed : Result (Unit {0})) → (Text → World) → Cli F → Trace (Unit {0})
  main installed world cli = elim cli.version [
    | true ↦ print_version
    | false ↦ elim cli.command [
      | none ↦ (do help ← lift crates.print_help; print_all (help ∷ ([] ∷ [])))
      | some command ↦
          lift (shutdown_flag installed)
          >> run_command (connected cli.zenoh.connect (world cli.zenoh.connect)) cli.zenoh.connect
              command
    ]
  ]
