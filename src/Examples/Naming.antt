-- ===== src/Examples/Naming.antt =====
-- Ids, slugs, devices and identities at concrete inputs.
use obsidian_archivist.Model.Failure.{path_not_found}
use obsidian_archivist.Common.{ℕ, Option, ◌⊎◌}
use obsidian_archivist.Model.Manifest.{SnapshotType}
use obsidian_archivist.Devices.Claims.{check_consistency-claim_remote}
use obsidian_archivist.Devices.Conflicts.{verify_no_conflict_iff, own_id, Blocks}
use obsidian_archivist.Paths.SlugLaws.{slugify-is_vault_prefix}
use obsidian_archivist.Model.Failure.{device_conflict, err, ok}
use obsidian_archivist.Startup.Report.{Head, head, HeadFile}
use obsidian_archivist.Devices.Uuid.{hex, generate_uuid_v4}
use obsidian_archivist.Paths.Slug.{trim_end, trim_start, collapse, slugify}
use obsidian_archivist.Common.Text.{codes, Text}
use obsidian_archivist.Devices.Coordinator.{no_options, Coordinator, verify_no_conflict}
use obsidian_archivist.Paths.Remote.{is_vault_prefix}
use obsidian_archivist.Devices.Identity.{
  remote_corrupt, is_vault_id, consistent, claim_remote, no_meta, load_remote_vault_meta, Identity,
  check_consistency, VaultMeta,
}
use obsidian_archivist.Paths.Stamps.{
  epoch-derive_id, take_digits, derive_id-is_snapshot_id, group, read_stamp, Utc, is_snapshot_id,
  epoch_ms_from_snapshot_id, derive_id,
}
use obsidian_archivist.Examples.Backups.{bytes, device_calls, identity_calls}
use obsidian_archivist.Common.{◌↔◌, if◌then◌else◌, refl, ◌+◌, true, ◌≡◌, ◌*◌, none, some, []}

abbrev noon : Text
noon = codes "2026-04-23T12:05:59.000Z"

abbrev noon_id : Text
noon_id = codes "2026-04-23T12-05-inc"

derive_id_test : derive_id noon SnapshotType.inc ≡ some noon_id
unfolding derive_id read_stamp group take_digits
derive_id_test = refl

derive_id-is_snapshot_id_example : is_snapshot_id noon_id ≡ true
derive_id-is_snapshot_id_example =
    derive_id-is_snapshot_id noon noon_id SnapshotType.inc derive_id_test

-- Minutes since the year 0 with months of 31 days, for `Date.UTC`.
abbrev month_index : Option ℕ → ℕ
month_index none = 0
month_index (some n) = n

abbrev simple_utc : Utc
simple_utc y mo d h mi = (((y * 12 + month_index mo) * 31 + d) * 24 + h) * 60 + mi

epoch-derive_id_example :
    (id : Text) × (derive_id noon SnapshotType.inc ≡ some id)
    × (epoch_ms_from_snapshot_id simple_utc id ≡ some (simple_utc 2026 (some 3) 23 12 5))
epoch-derive_id_example =
    epoch-derive_id simple_utc SnapshotType.inc (codes "2026") (codes "04") (codes "23")
      (codes "12") (codes "05") (codes ":59.000Z") refl refl refl refl refl

slugify-is_vault_prefix_example : is_vault_prefix (slugify (codes "--my  notes!")) ≡ true
slugify-is_vault_prefix_example = slugify-is_vault_prefix (codes "--my  notes!")

slugify_test : slugify (codes "--my  notes!") ≡ codes "my-notes"
unfolding slugify collapse trim_start trim_end
slugify_test = refl

generate_uuid_v4_test : generate_uuid_v4 bytes ≡ codes "00010203-0405-4607-8809-0a0b0c0d0e0f"
unfolding generate_uuid_v4 hex
generate_uuid_v4_test = refl

abbrev a_device : Coordinator
a_device = record {
  id_promise = none;
  stored = record { device_id = none; designated = true; device_label = [] };
}

abbrev other_head : HeadFile
other_head = head (record {
  snapshot_id = noon_id;
  snapshot_type = SnapshotType.inc;
  device_id = codes "11111111-2222-4333-8444-555555555555";
  committed_at = noon;
})

verify_no_conflict_iff_example :
    let result = (verify_no_conflict device_calls no_options none other_head a_device).1 in
    ((result ≡ err device_conflict) ↔ (
      (h : Head) × (other_head ≡ head h)
      × Blocks device_calls no_options (own_id device_calls a_device) h))
    × ((result ≡ ok tt) ⊎ (result ≡ err device_conflict))
    × ((verify_no_conflict device_calls no_options (some path_not_found) other_head a_device).1
        ≡ ok tt)
verify_no_conflict_iff_example =
    verify_no_conflict_iff device_calls no_options other_head a_device refl refl

abbrev my_id : Text
my_id = codes "aaaaaaaa-bbbb-4ccc-9ddd-eeeeeeeeeeee"

abbrev unclaimed : Identity
unclaimed = record { local_id = some my_id; remote = no_meta }

check_consistency-claim_remote_example :
    let claimed =
      (claim_remote identity_calls my_id (check_consistency identity_calls unclaimed).0).0 in
    (m : VaultMeta) × (m.vault_id ≡ my_id)
    × ((check_consistency identity_calls claimed).1
        ≡ ok (if is_vault_id my_id then consistent my_id m else remote_corrupt my_id))
unfolding check_consistency load_remote_vault_meta
check_consistency-claim_remote_example =
    check_consistency-claim_remote identity_calls identity_calls unclaimed my_id
      (refl, refl, refl, refl) (refl, refl, refl, refl) refl
