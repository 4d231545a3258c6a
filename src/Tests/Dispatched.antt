-- ===== src/Tests/Dispatched.antt =====
-- A command line that is run, and the summary of a bag.
use csyn.Common.{
  true, unwrap_or, if◌then◌else◌, ℕ, List, [], ◌∷◌, ◌++◌, false, none, some, All, ◌≡◌, refl, arith,
  length, map,
}
use csyn.Common.Text.{Text, codes, contains, eq_ignore_ascii_case, list_eq, find_from, starts_with}
use csyn.Types.Topic.{publish_key, require, find, find_named, is_named, from_topic, infer, decode}
use csyn.Common.Result.{Result, ok, panic}
use csyn.Bag.Writer.Steps.{Message}
use csyn.Synapse.{TopicInfo}
use csyn.Commands.Trace.{puts_of}
use csyn.Commands.Stream.{StreamMessage}
use csyn.Commands.Info.{Summary, empty_summary, info_loop}
use csyn.Commands.Info.Missing.{info_loop_panics}
use csyn.Commands.Info.Summed.{Adds, info_loop-sums}
use csyn.Commands.Publish.{topic_pub, payload_of, delay_of, pub_loop, send}
use csyn.Zenoh.{open_session, config, endpoints_of, default_connect, ZenohCrate, client_mode}
use csyn.Zenoh.Endpoints.{read_list}
use csyn.Zenoh.Configured.{Configures, IsConfiguredAs, config-endpoints}
use csyn.Cli.{Cli, of_topic, TopicCommand}
use csyn.Main.{World, Crates, connected, shutdown_flag, run_command, run_topic, main}
use csyn.Main.Sound.{IsSent, main-AreTyped}
use csyn.Tests.Catalog.{catalog}
use csyn.Tests.Bags.{names, channel, lib}
use csyn.Tests.Recorded.{time, display}
use csyn.Tests.Watched.{run}
use csyn.Tests.Exported.{message}

-- Numbers are not written out.
abbrev crates : Crates ℕ (List Message) (Text × TopicInfo) Text
crates = record {
  time = time;
  mcap = lib;
  fbs = catalog;
  names = names;
  zenoh = record {
    default = [];
    insert_json5 = λ config key value. ok (config ++ value);
    open_with = λ config. ok tt;
  };
  display = display;
  echo_encoders = record {
    base64 = λ bytes. bytes;
    to_json = λ line. ok line.topic;
    display = display;
  };
  encoders = record { base64 = λ bytes. bytes; to_json = λ frame. ok frame.topic };
  format = record {
    mean_size = λ bytes samples. codes "mean";
    seconds = λ elapsed. codes "seconds";
    rate = λ samples elapsed. codes "rate";
    bandwidth = λ bytes elapsed. codes "bandwidth";
  };
  seconds = λ duration. codes "seconds";
  version = codes "1";
  csyn_version = codes "1";
  print_help = ok (codes "help");
}

abbrev world : World
world = record {
  subscription = record { subscribe = λ key. ok tt; started = 0; polls = [] };
  observed = record { subscribe = λ key. ok tt; started = 0; polls = []; elapsed = 0 };
  published = run;
  recorded = record {
    subscribe = λ key. ok tt;
    file = ok tt;
    session_id = codes "0";
    version = codes "1";
    started = 0;
    rounds = [];
  };
  info = λ path. record { contents = ok tt; records = ok []; stream = ok [] };
  played = λ path. record { session = ok tt; contents = ok tt; records = ok []; stream = ok [] };
  exported = λ path. record {
    contents = ok tt;
    records = ok [];
    create = λ output. ok tt;
    stream = ok [];
    flush = ok tt;
  };
  listener = record { started = 0; bind = λ address. ok tt; nonblocking = ok tt; accepts = [] };
}

-- `csyn topic pub cub1/att --type AttitudeEstimate --file sample.bin --rate 1 --count 2`
abbrev cli : Cli ℕ
cli = record {
  zenoh = record { connect = default_connect };
  version = false;
  command = some (
      of_topic (
        TopicCommand.topic_pub (record {
          topic = codes "cub1/att";
          ty = codes "AttitudeEstimate";
          file = some (codes "sample.bin");
          text = none;
          rate = 1;
          count = some 2;
        })));
}

main-AreTyped_example :
    All (IsSent crates 3 default_connect) (puts_of (main crates 3 (ok tt) (λ connect. world) cli).1)
main-AreTyped_example = main-AreTyped crates 3 (ok tt) (λ connect. world) cli

abbrev messages : List StreamMessage
messages = message ∷ (record message { log_time = 9 } ∷ [])

info_loop-sums_example :
    (s : Summary) × (info_loop empty_summary (map ok messages) ≡ ok s)
    × Adds empty_summary messages s
info_loop-sums_example = info_loop-sums messages ((_, refl), ((_, refl), tt)) (omega arith)

abbrev bare : StreamMessage
bare = record message { channel = record channel { schema = none } }

info_loop_panics_example : info_loop empty_summary (map ok messages ++ (ok bare ∷ [])) ≡ panic
info_loop_panics_example = info_loop_panics empty_summary messages bare [] refl

-- The sample is sent twice.
main-puts : length (puts_of (main crates 3 (ok tt) (λ connect. world) cli).1) ≡ 2
unfolding main shutdown_flag connected open_session config endpoints_of puts_of run_command
    run_topic topic_pub payload_of publish_key contains require find find_named is_named
    eq_ignore_ascii_case list_eq from_topic infer decode delay_of pub_loop send starts_with
    find_from
main-puts = refl

-- A configuration is its mode and its endpoints; everything is an endpoint.
abbrev set : Text × List Text → (key value : Text) → Result (Text × List Text)
set c key value =
    let items = unwrap_or (read_list value) [] in
    if list_eq key (codes "mode") then ok (codes "client", c.1) else ok (c.0, items)

abbrev configurable : ZenohCrate (Text × List Text)
configurable = record { default = ([], []); insert_json5 = set; open_with = λ c. ok tt }

pub set_client :
    (c : Text × List Text)
    → (c' : Text × List Text) × (set c (codes "mode") client_mode ≡ ok c')
      × (c'.0 ≡ codes "client")
      × (c'.1 ≡ c.1)
unfolding list_eq
set_client c = (_, refl, refl, refl)

pub set_endpoints :
    (c : Text × List Text) (value : Text) (items : List Text)
    → read_list value ≡ some items
    → All (λ item. true ≡ true) items
    → (c' : Text × List Text) × (set c (codes "connect/endpoints") value ≡ ok c')
      × (c'.1 ≡ items)
      × (c'.0 ≡ c.0)
unfolding list_eq
set_endpoints c value items e a = ((c.0, items), rw e refl, refl, refl)

abbrev configurable-Configures : Configures configurable
configurable-Configures = record {
  mode = λ c. c.0;
  endpoints = λ c. c.1;
  is_endpoint = λ item. true;
  sets_client = set_client;
  sets_endpoints = set_endpoints;
}

config-endpoints_example :
    IsConfiguredAs configurable configurable-Configures
      (codes "r1\",\"r2")
      (codes "r1" ∷ codes "r2" ∷ [])
config-endpoints_example =
    config-endpoints configurable configurable-Configures (codes "r1") (codes "r2" ∷ [])
      ((refl, refl), ((refl, refl), tt)) (((refl, refl), ((refl, refl), tt)), tt) (refl, (refl, tt))
