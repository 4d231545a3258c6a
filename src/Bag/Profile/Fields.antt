-- ===== src/Bag/Profile/Fields.antt =====
-- What `profile_metadata` asks of the metadata record.
use csyn.Common.{
  ℕ, ◌≤◌, ◌≡◌, ◌≢◌, ◌↔◌, ◌⊎◌, inl, inr, refl, arith, [], ◌∷◌, some, Bool, true, false, All, all,
  length, Option-cases,
}
use csyn.Common.Text.{Text, len}
use csyn.Common.TextOrder.{list_eq_iff}
use csyn.Common.Map.{BTreeMap, get}
use csyn.Common.Result.{ok, Error}
use csyn.Bag.Profile.{
  McapNames, ProfileMetadata, is_lowercase_hex, is_lowercase_hex_128, required, guard,
  is_time_basis, read_fields,
}

abbrev pub IsHexDigit : ℕ → Type 0
IsHexDigit c = ((b'0' ≤ c) × (c ≤ b'9')) ⊎ ((b'a' ≤ c) × (c ≤ b'f'))

all-IsHexDigit : (s : Text) → all is_lowercase_hex s ≡ true → All IsHexDigit s × (len s ≡ length s)
unfolding len
all-IsHexDigit [] h = (tt, refl)
all-IsHexDigit (c ∷ s) h = ground (arith, all-IsHexDigit s)

IsHexDigit-all :
    (s : Text) → All IsHexDigit s → (all is_lowercase_hex s ≡ true) × (len s ≡ length s)
unfolding len
IsHexDigit-all [] h = (refl, refl)
IsHexDigit-all (c ∷ s) (p, h) = ground (arith, IsHexDigit-all s h)

-- The test for a 128-bit hash passes exactly on 32 characters that are digits or the letters a to f.
is_lowercase_hex_128_iff :
    (value : Text)
    → (is_lowercase_hex_128 value ≡ true) ↔ ((length value ≡ 32) × All IsHexDigit value)
unfolding is_lowercase_hex_128
is_lowercase_hex_128_iff value =
    (λ h. ground (arith, all-IsHexDigit value), λ p. ground (arith, IsHexDigit-all value p.1))

required_iff :
    (fields : BTreeMap Text) (key value : Text)
    → (required fields key ≡ ok value) ↔ ((get key fields ≡ some value) × (value ≢ []))
unfolding required
required_iff fields key value = elim (Option-cases (get key fields)) [
  | inl e ↦ (λ h. ground (arith, e), λ p. ground (arith, e))
  | inr ([], e) ↦ (λ h. ground (arith, e), λ p. ground (arith, e, p.1))
  | inr (c ∷ s, e) ↦ (λ h. (ground (arith, e), λ n. ground (arith, e)), λ p. ground (arith, e, p.0))
]

guard_iff : (b : Bool) (e : Error) → (guard b e ≡ ok tt) ↔ (b ≡ true)
unfolding guard
guard_iff true e = (λ h. refl, λ h. refl)
guard_iff false e = (λ h. cc, λ h. cc)

module _ (names : McapNames) where
  abbrev pub IsTimeBasis : Text → Type 0
  IsTimeBasis basis =
      (basis ≡ names.monotonic_boot) ⊎ ((basis ≡ names.unix_epoch) ⊎ (basis ≡ names.correlated))

  is_time_basis_iff : (basis : Text) → (is_time_basis names basis ≡ true) ↔ IsTimeBasis basis
  unfolding is_time_basis
  is_time_basis_iff basis = (
    λ h. ground (
      arith,
      list_eq_iff basis names.monotonic_boot,
      list_eq_iff basis names.unix_epoch,
      list_eq_iff basis names.correlated,
    ),
    λ h. ground (
      arith,
      list_eq_iff basis names.monotonic_boot,
      list_eq_iff basis names.unix_epoch,
      list_eq_iff basis names.correlated,
    ),
  )

  -- A field of the metadata record that is there and not empty.
  abbrev pub HasField : BTreeMap Text → Text → Text → Type 0
  HasField fields key value = (get key fields ≡ some value) × (value ≢ [])

  abbrev pub IsHash : Text → Type 0
  IsHash value = (length value ≡ 32) × All IsHexDigit value

  -- The metadata that a file with this library and these fields has.
  pub record HasFields (library : Text) (fields : BTreeMap Text) (m : ProfileMetadata)
      : Type 0 where
    pub same_library : m.library ≡ library
    pub has_hash : HasField fields names.schema_set_hash_key m.schema_set_hash
    pub has_session : HasField fields names.session_id_key m.session_id
    pub has_source : HasField fields names.source_key m.source
    pub has_basis : HasField fields names.time_basis_key m.time_basis
    pub hash : IsHash m.schema_set_hash
    pub session : IsHash m.session_id
    pub basis : IsTimeBasis m.time_basis

  pub read_fields-HasFields :
      (library : Text) (fields : BTreeMap Text) (m : ProfileMetadata)
      → read_fields names library fields ≡ ok m
      → HasFields library fields m
  unfolding read_fields
  read_fields-HasFields library fields m e =
      let parts : (m.library ≡ library)
          × (required fields names.schema_set_hash_key ≡ ok m.schema_set_hash)
          × (required fields names.session_id_key ≡ ok m.session_id)
          × (required fields names.source_key ≡ ok m.source)
          × (required fields names.time_basis_key ≡ ok m.time_basis)
          × (is_lowercase_hex_128 m.schema_set_hash ≡ true)
          × (is_lowercase_hex_128 m.session_id ≡ true)
          × (is_time_basis names m.time_basis ≡ true) =
        unfold guard in ground arith in
      record {
        same_library = parts.0;
        has_hash = (required_iff fields names.schema_set_hash_key m.schema_set_hash).0 parts.1;
        has_session = (required_iff fields names.session_id_key m.session_id).0 parts.2;
        has_source = (required_iff fields names.source_key m.source).0 parts.3;
        has_basis = (required_iff fields names.time_basis_key m.time_basis).0 parts.4;
        hash = (is_lowercase_hex_128_iff m.schema_set_hash).0 parts.5;
        session = (is_lowercase_hex_128_iff m.session_id).0 parts.6;
        basis = (is_time_basis_iff m.time_basis).0 parts.7;
      }

  pub HasFields-read_fields :
      (library : Text) (fields : BTreeMap Text) (m : ProfileMetadata)
      → HasFields library fields m
      → read_fields names library fields ≡ ok m
  unfolding read_fields
  HasFields-read_fields library fields m h =
      rw
        (
          (required_iff fields names.schema_set_hash_key m.schema_set_hash).1 h.has_hash,
          (required_iff fields names.session_id_key m.session_id).1 h.has_session,
          (required_iff fields names.source_key m.source).1 h.has_source,
          (required_iff fields names.time_basis_key m.time_basis).1 h.has_basis,
          (is_lowercase_hex_128_iff m.schema_set_hash).1 h.hash,
          (is_lowercase_hex_128_iff m.session_id).1 h.session,
          (is_time_basis_iff m.time_basis).1 h.basis,
        )
        (unfold guard in ground arith)
