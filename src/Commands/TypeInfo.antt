-- ===== src/Commands/TypeInfo.antt =====
-- `run_type` of rust/src/main.rs.
use csyn.Common.{
  ℕ, zero, suc, ◌-◌, List, [], ◌∷◌, ◌++◌, Bool, true, false, Option, none, some, length, unwrap_or,
}
use csyn.Common.Text.{Text, codes, to_string}
use csyn.Common.Result.{ok}
use csyn.Synapse.{SynapseFbs, TopicInfo}
use csyn.Types.Topic.{schema_hash, TopicType, from_topic, require, wire_type, zenoh_encoding}
use csyn.Commands.Trace.{printed, Trace, ◌>>=◌, ◌>>◌, lift, emit, print_all}
use csyn.Commands.Observe.{line_of}

pub data TypeCommand : Type 0 where
  type_list : TypeCommand
  type_show : (ty : Text) → (fbs : Bool) → TypeCommand

abbrev spaces : ℕ → Text
spaces zero = []
spaces (suc n) = 32 ∷ spaces n

-- `{:<width}` and `{:>width}`
abbrev pub pad_right : ℕ → Text → Text
pad_right width s = s ++ spaces (width - length s)

abbrev pub pad_left : ℕ → Text → Text
pad_left width s = spaces (width - length s) ++ s

-- `payload_size.map(|size| size.to_string()).unwrap_or_else(|| "-".to_string())`
abbrev pub size_text : Option ℕ → Text
size_text none = codes "-"
size_text (some size) = to_string size

module _ (fbs : SynapseFbs) (version : Text) where
  abbrev pub row_of : TopicType → Text
  row_of known =
      pad_right 24 known.topic.name
      ++ (codes " "
          ++ (pad_left 4 (to_string known.topic.id)
              ++ (codes " "
                  ++ (pad_left 6 (size_text known.topic.payload_size)
                      ++ (codes "  " ++ unwrap_or (wire_type known) (codes "-"))))))

  -- `for known in TopicType::all()`
  unfoldable pub list_types : List TopicInfo → Trace (Unit {0})
  list_types [] = lift (ok tt)
  list_types (topic ∷ topics) = do
    known ← lift (from_topic fbs topic)
    emit (printed (row_of known))
    list_types topics

  -- The lines about one topic.
  abbrev pub show_lines : TopicType → List Text
  show_lines known =
      line_of (codes "topic") known.topic.name
      ∷ (line_of (codes "id") (to_string known.topic.id)
          ∷ (line_of (codes "key") known.topic.key
              ∷ (line_of (codes "wire_type") (unwrap_or (wire_type known) (codes "-"))
                  ∷ (line_of (codes "encoding") known.topic.encoding
                      ∷ (line_of (codes "zenoh_value_contract") (zenoh_encoding fbs known)
                          ∷ (line_of (codes "schema_hash")
                                (codes "sha256-128:" ++ schema_hash known)
                              ∷ (line_of (codes "payload_size") (size_text known.topic.payload_size)
                                  ∷ (line_of (codes "schema_file") known.topic.schema_file
                                      ∷ (line_of (codes "schema_root_type")
                                            (unwrap_or known.schema.root_type (codes "-"))
                                          ∷ (line_of (codes "schema_file_identifier")
                                                (unwrap_or known.schema.file_identifier (codes "-"))
                                              ∷ (line_of (codes "bfbs_bytes")
                                                    (to_string (length known.schema.bfbs))
                                                  ∷ (line_of (codes "synapse_fbs") version
                                                      ∷ (line_of (codes "description")
                                                            known.topic.description
                                                          ∷ [])))))))))))))

  abbrev pub schema_lines : Bool → TopicType → List Text
  schema_lines false known = []
  schema_lines true known = codes "---" ∷ (known.schema.fbs ∷ [])

  unfoldable pub run_type : TypeCommand → Trace (Unit {0})
  run_type type_list = do
    emit (printed (line_of (codes "synapse_fbs release") version))
    emit (
        printed (
          pad_right 24 (codes "topic")
          ++ (codes " "
              ++ (pad_left 4 (codes "id")
                  ++ (codes " " ++ (pad_left 6 (codes "bytes") ++ codes "  wire type"))))))
    list_types fbs.topics
  run_type (type_show ty show_fbs) = do
    known ← lift (require fbs ty)
    print_all (show_lines known ++ schema_lines show_fbs known)
