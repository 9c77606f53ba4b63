-- ===== src/Registry/Snapshots/Related.antt =====
-- The relations between the parts of a parsed snapshot, stated without the parser's maps.
use universal_smart_wallet.Prelude.{
  ℕ, ◌≤◌, ◌≡◌, true, some, List, [], ◌∷◌, All, arith, lookup, has, ok, map_result, Option-cases,
  inl, inr, >>=-eq-ok,
}
use universal_smart_wallet.Value.{Value}
use universal_smart_wallet.Registry.{
  KeyStatus, KeyAuthorization, KeyRotation, StatusEntry, UnsignedSnapshot,
}
use universal_smart_wallet.Registry.Parse.{Parsed, object}
use universal_smart_wallet.Registry.Snapshots.{
  issuer_map, find_key, rotation_fits, validate_rotation, validate_status, validate_relations,
  parse_unsigned, parse_unsigned_snapshot,
}
use universal_smart_wallet.Registry.Snapshots.Valid.{
  parse_unsigned-SnapshotValid, RotationFits, StatusFits, issuer_map-lookup,
}

rotation_fits-parts :
    (t : ℕ) (r : KeyRotation) (p n : KeyAuthorization)
    → rotation_fits t r p n ≡ true
    → (p.status ≡ KeyStatus.retired)
      × (p.authorized_until ≡ some (r.rotated_at))
      × (n.authorized_from ≡ r.rotated_at)
      × (r.rotated_at ≤ t)
unfolding rotation_fits
rotation_fits-parts t r p n h = (ground arith, ground arith, ground arith, ground arith)

module _ (s : UnsignedSnapshot) where
  validate_rotation-RotationFits :
      (r : KeyRotation) (u : Unit {0})
      → validate_rotation (issuer_map s.issuers) s.issued_at r ≡ ok u
      → RotationFits s r
  unfolding validate_rotation
  validate_rotation-RotationFits r u h =
      elim (Option-cases (lookup r.issuer_id (issuer_map s.issuers))) [
        | inl e ↦ ground arith
        | inr (i, ei) ↦ elim (Option-cases (find_key r.previous_key_id i.keys)) [
          | inl e ↦ ground arith
          | inr (p, ep) ↦ elim (Option-cases (find_key r.new_key_id i.keys)) [
            | inl e ↦ ground arith
            | inr (n, en) ↦
                let fits = rotation_fits-parts s.issued_at r p n (ground arith) in
                record {
                  issuer = i;
                  known = issuer_map-lookup s.issuers r.issuer_id i ei;
                  previous = p;
                  previous_found = ep;
                  next = n;
                  next_found = en;
                  retired = fits.0;
                  ends = fits.1;
                  starts = fits.2;
                  in_time = fits.3;
                }
          ]
        ]
      ]

  validate_status-StatusFits :
      (e : StatusEntry) (u : Unit {0})
      → validate_status (issuer_map s.issuers) s.issued_at e ≡ ok u
      → StatusFits s e
  unfolding validate_status has
  validate_status-StatusFits e u h =
      elim (Option-cases (lookup e.issuer_id (issuer_map s.issuers))) [
        | inl no_issuer ↦ ground arith
        | inr (i, ei) ↦ record {
          issuer = i;
          known = issuer_map-lookup s.issuers e.issuer_id i ei;
          in_time = ground arith;
        }
      ]

-- A loop that throws at the first bad item has checked every item when it returns.
All-of_map_result :
    {A : Type 0} {P : A → Type 0} (f : A → Parsed (Unit {0}))
    → ((a : A) (u : Unit {0}) → f a ≡ ok u → P a)
    → (xs : List A) (us : List (Unit {0})) → map_result f xs ≡ ok us
    → All P xs
unfolding map_result
All-of_map_result f k [] us h = tt
All-of_map_result f k (x ∷ xs) us h =
    let first = >>=-eq-ok (f x) _ h in
    let rest = >>=-eq-ok (map_result f xs) _ first.2 in
    (k x first.0 first.1, All-of_map_result f k xs rest.0 rest.1)

-- In every snapshot that the parser returns, each rotation is of an issuer of the snapshot, whose
-- retired key ends exactly when the new key starts and no later than the snapshot is issued; and
-- each status is of an issuer of the snapshot and no later than it.
pub parse_unsigned_snapshot-related :
    (v : Value) (s : UnsignedSnapshot)
    → parse_unsigned_snapshot v ≡ ok s
    → All (RotationFits s) s.rotations × All (StatusFits s) s.statuses
unfolding parse_unsigned_snapshot validate_relations
parse_unsigned_snapshot-related v s h =
    let parsed = >>=-eq-ok (object v) parse_unsigned h in
    let valid = (parse_unsigned-SnapshotValid parsed.0).at s parsed.2 in
    let rotations =
      >>=-eq-ok (map_result (validate_rotation (issuer_map s.issuers) s.issued_at) s.rotations) _
        valid.related in
    let statuses =
      >>=-eq-ok (map_result (validate_status (issuer_map s.issuers) s.issued_at) s.statuses) _
        rotations.2 in
    (
      All-of_map_result _ (validate_rotation-RotationFits s) s.rotations rotations.0 rotations.1,
      All-of_map_result _ (validate_status-StatusFits s) s.statuses statuses.0 statuses.1,
    )
