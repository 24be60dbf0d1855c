-- ===== src/UnitTests/Passes/NodeIds.antt =====
-- The tests of identifiers, over any crate `hex`.
use enr.Prelude.{◌≡◌, ret, length, arith}
use enr.Bytes.{Bytes}
use enr.Bytes.Laws.{compare_refl}
use enr.Crates.Text.{Hex, HexLaws}
use enr.NodeId.{random, raw_eq, as_ref}
use enr.NodeId.Laws.{deserialize-serialize}
use enr.UnitTests.NodeIds.{test_eq_node_raw_node, test_serde}

pub test_eq_node_raw_node_passes : (drawn : Bytes) → test_eq_node_raw_node drawn ≡ ret tt
unfolding test_eq_node_raw_node random raw_eq as_ref
test_eq_node_raw_node_passes drawn = ground (arith, compare_refl drawn)

pub test_serde_passes :
    ⦃hex : Hex⦄ (law : HexLaws hex) (drawn : Bytes) → length drawn ≡ 32 → test_serde drawn ≡ ret tt
unfolding test_serde random
test_serde_passes law drawn sized =
    rw (deserialize-serialize law (record { raw = drawn }) sized).0
      (ground (arith, compare_refl drawn))
