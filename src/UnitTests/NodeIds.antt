-- ===== src/UnitTests/NodeIds.antt =====
-- The tests of src/node_id.rs that read an identifier back. A JSON text is the text handed over.
use enr.Prelude.{Panics}
use enr.Prelude.Panicking.{◌>>=◌}
use enr.Bytes.{Bytes, ◌==◌}
use enr.Crates.Text.{Hex}
use enr.NodeId.{random, raw_eq, node_id_eq, as_ref, serialize, deserialize}
use enr.UnitTests.Assert.{assert, unwrap}

unfoldable pub test_eq_node_raw_node : Bytes → Panics (Unit {0})
test_eq_node_raw_node drawn = do
  let node = random drawn
  let raw = node.raw
  _ ← assert (raw_eq node raw)
  assert (as_ref node == raw)

unfoldable pub test_serde : ⦃hex : Hex⦄ → Bytes → Panics (Unit {0})
test_serde drawn = do
  let node = random drawn
  let json_string = serialize node
  read ← unwrap (deserialize json_string)
  assert (node_id_eq node read)
