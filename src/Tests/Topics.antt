-- ===== src/Tests/Topics.antt =====
-- Topics of the test catalog: search, contracts, keys and payloads.
use csyn.Common.{ℕ, ◌≡◌, refl, [], ◌∷◌, ◌++◌, some, none}
use csyn.Common.Text.{Text, codes, list_eq, eq_ignore_ascii_case, starts_with, contains}
use csyn.Common.Bytes.{Bytes}
use csyn.Common.Result.{ok}
use csyn.Types.Wrapper.{wrap_fixed_payload}
use csyn.Types.Topic.{
  find, find_named, is_named, from_topic, infer, find_wired, is_wired, decode, to_mcap_payload,
  mcap_to_zenoh_payload, mcap_publish_time_ns, zenoh_encoding, from_value_encoding,
  subscribe_keyexpr, publish_key,
}
use csyn.Types.Topic.Lookup.{IsFindResult, find-IsFindResult}
use csyn.Types.Topic.Contract.{from_value_encoding-zenoh_encoding, IsClear, marker, HasContract}
use csyn.Types.Topic.Payload.{
  mcap_to_zenoh_payload-to_mcap_payload, mcap_publish_time_ns_total, IsPublishTime,
}
use csyn.Tests.Catalog.{
  catalog, attitude, known_attitude, catalog-IsClosed, catalog-ChecksSize, catalog-ChecksRoot,
}

searching : Unit {0}
unfolding find find_named is_named from_topic infer find_wired is_wired eq_ignore_ascii_case list_eq
    subscribe_keyexpr publish_key contains
searching = tt

find_by_name : find catalog (codes "ATTITUDEestimate") ≡ ok (some known_attitude)
unfolding searching
find_by_name = refl

find_by_wire : find catalog (codes "synapse.topic.AttitudeEstimateData") ≡ ok (some known_attitude)
unfolding searching
find_by_wire = refl

find_nothing : find catalog (codes "no_such_topic") ≡ ok none
unfolding searching
find_nothing = refl

find-IsFindResult_example : IsFindResult catalog (codes "att") (find catalog (codes "att"))
find-IsFindResult_example = find-IsFindResult catalog (codes "att") catalog-IsClosed

-- The wrapper that a transport puts in front of the contract.
abbrev wrapper : Text
wrapper = codes "zenoh/bytes;"

has_contract : HasContract catalog attitude
unfolding starts_with list_eq
has_contract = record {
  media = refl;
  read_back = refl;
  front = wrapper;
  has_front = refl;
  clear_front = (
    refl,
    (refl, (refl, (refl, (refl, (refl, (refl, (refl, (refl, (refl, (refl, (refl, tt))))))))))),
  );
}

wrapper-IsClear : IsClear marker wrapper (zenoh_encoding catalog known_attitude)
unfolding starts_with zenoh_encoding
wrapper-IsClear = (
  refl,
  (refl, (refl, (refl, (refl, (refl, (refl, (refl, (refl, (refl, (refl, (refl, tt))))))))))),
)

from_value_encoding-zenoh_encoding_example :
    from_value_encoding catalog (wrapper ++ zenoh_encoding catalog known_attitude)
    ≡ ok known_attitude
from_value_encoding-zenoh_encoding_example =
    from_value_encoding-zenoh_encoding catalog known_attitude wrapper refl has_contract
      wrapper-IsClear

abbrev payload : Bytes
payload = 57 ∷ 48 ∷ 0 ∷ 0 ∷ 0 ∷ 0 ∷ 0 ∷ 0 ∷ 9 ∷ 9 ∷ 9 ∷ 9 ∷ []

abbrev stored : Bytes
stored = 4 ∷ 0 ∷ 0 ∷ 0 ∷ 0xf0 ∷ 0xff ∷ 0xff ∷ 0xff ∷ (payload ++ (6 ∷ 0 ∷ 16 ∷ 0 ∷ 4 ∷ 0 ∷ []))

payload_decodes : decode catalog known_attitude payload ≡ ok (codes "AttitudeEstimate")
unfolding decode
payload_decodes = refl

store_payload : to_mcap_payload catalog known_attitude payload ≡ ok stored
unfolding to_mcap_payload decode wrap_fixed_payload
store_payload = refl

mcap_to_zenoh_payload-to_mcap_payload_example :
    mcap_to_zenoh_payload catalog known_attitude stored ≡ ok payload
mcap_to_zenoh_payload-to_mcap_payload_example =
    mcap_to_zenoh_payload-to_mcap_payload catalog known_attitude payload stored catalog-ChecksSize
      store_payload

publish_time : mcap_publish_time_ns catalog known_attitude payload 5 ≡ ok 12345
unfolding mcap_publish_time_ns decode
publish_time = refl

mcap_publish_time_ns_total_example :
    (time : ℕ) × (mcap_publish_time_ns catalog known_attitude payload 5 ≡ ok time)
    × IsPublishTime catalog known_attitude payload 5 time
mcap_publish_time_ns_total_example =
    mcap_publish_time_ns_total catalog known_attitude payload 5 (codes "AttitudeEstimate")
      catalog-ChecksRoot payload_decodes
