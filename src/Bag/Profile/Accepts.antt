-- ===== src/Bag/Profile/Accepts.antt =====
-- Which files `profile_metadata` accepts.
use csyn.Common.{◌≡◌, ◌≢◌, ◌↔◌, ◌⊎◌, inl, inr, arith, List, [], ◌∷◌, ◌++◌, All, Bool-cases}
use csyn.Common.Text.{Text, list_eq}
use csyn.Common.TextOrder.{list_eq_iff}
use csyn.Common.Map.{BTreeMap}
use csyn.Common.Result.{Result, ok, err, panic, metadata_after_message}
use csyn.Bag.Profile.{
  McapNames, Record, header, metadata, message, chunk, other, ProfileMetadata, scan, read_header,
  profile_metadata,
}
use csyn.Bag.Profile.Fields.{HasFields, read_fields-HasFields, HasFields-read_fields}

module _ (names : McapNames) where
  -- What may stand between the header and the metadata record: no message and no chunk.
  abbrev pub IsSkipped : Result Record → Type 0
  IsSkipped (ok (metadata name fields)) = name ≢ names.metadata_name
  IsSkipped (ok other) = Unit
  IsSkipped (ok (header profile library)) = Unit
  IsSkipped _ = ⊥

  -- The first record that is not skipped holds the metadata.
  pub data HasMetadata (library : Text) (m : ProfileMetadata) : List (Result Record) → Type 0 where
    found :
        {name : Text} {fields : BTreeMap Text} {records : List (Result Record)}
        → name ≡ names.metadata_name
        → HasFields names library fields m
        → HasMetadata library m (ok (metadata name fields) ∷ records)
    skipped :
        {r : Result Record} {records : List (Result Record)}
        → IsSkipped r
        → HasMetadata library m records
        → HasMetadata library m (r ∷ records)

  scan-HasMetadata :
      (library : Text) (m : ProfileMetadata) (records : List (Result Record))
      → scan names library records ≡ ok m
      → HasMetadata library m records
  unfolding scan
  scan-HasMetadata library m [] e = cc
  scan-HasMetadata library m (err x ∷ rs) e = cc
  scan-HasMetadata library m (panic ∷ rs) e = cc
  scan-HasMetadata library m (ok message ∷ rs) e = cc
  scan-HasMetadata library m (ok chunk ∷ rs) e = cc
  scan-HasMetadata library m (ok other ∷ rs) e = skipped tt (scan-HasMetadata library m rs e)
  scan-HasMetadata library m (ok (header p l) ∷ rs) e = skipped tt (scan-HasMetadata library m rs e)
  scan-HasMetadata library m (ok (metadata name fields) ∷ rs) e =
      elim (Bool-cases (list_eq name names.metadata_name)) [
        | inl same ↦
            found ((list_eq_iff _ _).0 same)
              (read_fields-HasFields names library fields m (rw same at e))
        | inr differs ↦
            skipped (λ p. ground (arith, list_eq_iff name names.metadata_name, p))
              (scan-HasMetadata library m rs (rw differs at e))
      ]

  skip-scan :
      (library : Text) (m : ProfileMetadata) (r : Result Record) (records : List (Result Record))
      → IsSkipped r
      → scan names library records ≡ ok m
      → scan names library (r ∷ records) ≡ ok m
  unfolding scan
  skip-scan library m (ok (metadata name fields)) rs h e =
      ground (arith, list_eq_iff name names.metadata_name)
  skip-scan library m (ok other) rs h e = e
  skip-scan library m (ok (header p l)) rs h e = e
  skip-scan library m (ok message) rs h e = elim h [ ]
  skip-scan library m (ok chunk) rs h e = elim h [ ]
  skip-scan library m (err x) rs h e = elim h [ ]
  skip-scan library m panic rs h e = elim h [ ]

  HasMetadata-scan :
      {library : Text} {m : ProfileMetadata} {records : List (Result Record)}
      → HasMetadata library m records
      → scan names library records ≡ ok m
  HasMetadata-scan {library} {m} (found {name} {fields} same h) =
      unfold scan in
      rw ((list_eq_iff name names.metadata_name).1 same)
        (HasFields-read_fields names library fields m h)
  HasMetadata-scan {library} {m} (skipped {r} {records} s h) =
      skip-scan library m r records s (HasMetadata-scan h)

  -- A file of the profile: its header comes first, names the profile and a library, and the metadata follow.
  pub record IsProfile (opened : Result (List (Result Record))) (m : ProfileMetadata) : Type 0 where
    pub library : Text
    pub records : List (Result Record)
    pub begins : opened ≡ ok (ok (header names.profile library) ∷ records)
    pub named : library ≢ []
    pub rest : HasMetadata library m records

  profile_metadata-IsProfile :
      (opened : Result (List (Result Record))) (m : ProfileMetadata)
      → profile_metadata names opened ≡ ok m
      → IsProfile opened m
  unfolding profile_metadata
  profile_metadata-IsProfile (err x) m e = cc
  profile_metadata-IsProfile panic m e = cc
  profile_metadata-IsProfile (ok []) m e = cc
  profile_metadata-IsProfile (ok (err x ∷ rs)) m e = cc
  profile_metadata-IsProfile (ok (panic ∷ rs)) m e = cc
  profile_metadata-IsProfile (ok (ok message ∷ rs)) m e = cc
  profile_metadata-IsProfile (ok (ok chunk ∷ rs)) m e = cc
  profile_metadata-IsProfile (ok (ok other ∷ rs)) m e = cc
  profile_metadata-IsProfile (ok (ok (metadata n f) ∷ rs)) m e = cc
  profile_metadata-IsProfile (ok (ok (header p l) ∷ rs)) m e =
      let parts : (p ≡ names.profile) × (l ≢ []) × (scan names l rs ≡ ok m) =
        unfold read_header in ground (arith, list_eq_iff p names.profile, list_eq_iff l []) in
      record {
        library = l;
        records = rs;
        begins = ground (arith, parts.0);
        named = parts.1;
        rest = scan-HasMetadata l m rs parts.2;
      }

  IsProfile-profile_metadata :
      (opened : Result (List (Result Record))) (m : ProfileMetadata)
      → IsProfile opened m
      → profile_metadata names opened ≡ ok m
  unfolding profile_metadata read_header
  IsProfile-profile_metadata opened m h = rw h.begins (
      ground (
        arith,
        list_eq_iff names.profile names.profile,
        list_eq_iff h.library [],
        HasMetadata-scan h.rest,
        h.named,
      ))

  -- A file is accepted with exactly the metadata that it holds: the header is first, its profile is the one
  -- of the crate and its library is not empty; no message and no chunk stands before the metadata record; and of that record the
  -- four fields are there and not empty, the two hashes are 128 bits in lowercase hexadecimal,
  -- and the time basis is one of the three.
  pub profile_metadata_iff :
      (opened : Result (List (Result Record))) (m : ProfileMetadata)
      → (profile_metadata names opened ≡ ok m) ↔ IsProfile opened m
  profile_metadata_iff opened m =
      (profile_metadata-IsProfile opened m, IsProfile-profile_metadata opened m)

  -- A message or a chunk that comes before the metadata is refused as such, whatever follows it.
  pub scan_early_message :
      (library : Text) (before records : List (Result Record)) (early : Record)
      → All IsSkipped before
      → (early ≡ message) ⊎ (early ≡ chunk)
      → scan names library (before ++ (ok early ∷ records)) ≡ err metadata_after_message
  unfolding scan
  scan_early_message library [] rs early h (inl e) = rw e
  scan_early_message library [] rs early h (inr e) = rw e
  scan_early_message library (ok (metadata name fields) ∷ before) rs early (p, h) c =
      ground (
        arith,
        list_eq_iff name names.metadata_name,
        scan_early_message library before rs early h c,
      )
  scan_early_message library (ok other ∷ before) rs early (p, h) c =
      scan_early_message library before rs early h c
  scan_early_message library (ok (header q l) ∷ before) rs early (p, h) c =
      scan_early_message library before rs early h c
  scan_early_message library (ok message ∷ before) rs early (p, h) c = elim p [ ]
  scan_early_message library (ok chunk ∷ before) rs early (p, h) c = elim p [ ]
  scan_early_message library (err x ∷ before) rs early (p, h) c = elim p [ ]
  scan_early_message library (panic ∷ before) rs early (p, h) c = elim p [ ]
