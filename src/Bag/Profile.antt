-- ===== src/Bag/Profile.antt =====
-- `profile_metadata` and `is_lowercase_hex_128` of rust/src/bag.rs. The records of a file come from the `mcap`
-- reader of the `synapse_fbs` crate, as a list in which each may be a read error; the names of the profile are
-- constants of that crate.
pub mod Fields
pub mod Accepts
use csyn.Common.{
  ℕ, List, [], ◌∷◌, Option, none, some, Bool, true, false, not, ◌&&◌, ◌||◌, all, leb, ◌==◌,
  if◌then◌else◌,
}
use csyn.Common.Text.{Text, codes, list_eq, len}
use csyn.Common.Map.{BTreeMap, get}
use csyn.Common.Result.{
  Result, Error, ok, err, panic, ◌>>=◌, ◌>>◌, map_err, context, ok_or, no_header,
  unsupported_profile, empty_library, missing_metadata, invalid_schema_set_hash, invalid_session_id,
  invalid_time_basis, metadata_after_message, no_metadata,
}

-- The `MCAP_*` constants of `synapse_fbs::topic_catalog`.
pub record McapNames : Type 0 where
  pub profile : Text
  pub metadata_name : Text
  pub schema_set_hash_key : Text
  pub session_id_key : Text
  pub source_key : Text
  pub time_basis_key : Text
  pub monotonic_boot : Text
  pub unix_epoch : Text
  pub correlated : Text
  pub topic_id_key : Text
  pub schema_encoding : Text
  pub message_encoding : Text

-- `mcap::records::Record`, by the kinds that are told apart.
pub data Record : Type 0 where
  header : (profile library : Text) → Record
  metadata : (name : Text) → BTreeMap Text → Record
  message : Record
  chunk : Record
  other : Record

pub record ProfileMetadata : Type 0 where
  pub library : Text
  pub schema_set_hash : Text
  pub session_id : Text
  pub source : Text
  pub time_basis : Text

-- `byte.is_ascii_digit() || (b'a'..=b'f').contains(&byte)`
abbrev pub is_lowercase_hex : ℕ → Bool
is_lowercase_hex c = leb b'0' c && leb c b'9' || leb b'a' c && leb c b'f'

-- A byte of a character that is not ASCII fails the test, as the character itself does.
unfoldable pub is_lowercase_hex_128 : Text → Bool
is_lowercase_hex_128 value = len value == 32 && all is_lowercase_hex value

-- `.filter(|value| !value.is_empty())`
abbrev pub non_empty : Option Text → Option Text
non_empty none = none
non_empty (some []) = none
non_empty (some (c ∷ s)) = some (c ∷ s)

-- The closure `required`.
unfoldable pub required : BTreeMap Text → Text → Result Text
required fields key = ok_or (missing_metadata key) (non_empty (get key fields))

unfoldable pub guard : Bool → Error → Result (Unit {0})
guard true e = ok tt
guard false e = err e

module _ (names : McapNames) where
  unfoldable pub is_time_basis : Text → Bool
  is_time_basis basis =
      list_eq basis names.monotonic_boot
      || (list_eq basis names.unix_epoch || list_eq basis names.correlated)

  -- What the loop does with the metadata record of the profile.
  unfoldable pub read_fields : Text → BTreeMap Text → Result ProfileMetadata
  read_fields library fields = do
    schema_set_hash ← required fields names.schema_set_hash_key
    session_id ← required fields names.session_id_key
    source ← required fields names.source_key
    time_basis ← required fields names.time_basis_key
    guard (is_lowercase_hex_128 schema_set_hash) invalid_schema_set_hash
    guard (is_lowercase_hex_128 session_id) invalid_session_id
    guard (is_time_basis time_basis) (invalid_time_basis time_basis)
    ok (record {
      library = library;
      schema_set_hash = schema_set_hash;
      session_id = session_id;
      source = source;
      time_basis = time_basis;
    })

  -- The loop over the records behind the header.
  unfoldable pub scan : Text → List (Result Record) → Result ProfileMetadata
  scan library [] = err no_metadata
  scan library (err e ∷ records) = err (context (codes "failed to read MCAP profile metadata") e)
  scan library (panic ∷ records) = panic
  scan library (ok (metadata name fields) ∷ records) =
      let rest = scan library records in
      if list_eq name names.metadata_name then read_fields library fields else rest
  scan library (ok message ∷ records) = err metadata_after_message
  scan library (ok chunk ∷ records) = err metadata_after_message
  scan library (ok other ∷ records) = scan library records
  scan library (ok (header profile l) ∷ records) = scan library records

  unfoldable pub read_header : Text → Text → List (Result Record) → Result ProfileMetadata
  read_header profile library records =
      if not (list_eq profile names.profile)
      then err (unsupported_profile profile)
      else if list_eq library []
      then err empty_library
      else scan library records

  -- `profile_metadata`, on what `LinearReader::new` and its iterator give.
  unfoldable pub profile_metadata : Result (List (Result Record)) → Result ProfileMetadata
  profile_metadata (err e) = err (context (codes "failed to open MCAP") e)
  profile_metadata panic = panic
  profile_metadata (ok (err e ∷ records)) = err (context (codes "failed to read MCAP header") e)
  profile_metadata (ok (panic ∷ records)) = panic
  profile_metadata (ok (ok (header profile library) ∷ records)) =
      read_header profile library records
  profile_metadata (ok _) = err no_header
