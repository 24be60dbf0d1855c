-- ===== src/Builder/Fill.antt =====
-- A builder that is given several values.
use enr.Prelude.{◌≡◌, refl, List, [], ◌∷◌}
use enr.Bytes.{Bytes}
use enr.BtreeMap
use enr.Keys.Traits.{Content}
use enr.Builder.Defs.{Builder, add_value_rlp}

-- `add_value_rlp` for each of some keys and values.
abbrev pub add_all : List (Bytes × Bytes) → Builder → Builder
add_all [] b = b
add_all (kv ∷ kvs) b = add_all kvs (add_value_rlp kv.0 kv.1 b)

abbrev pub put_all : List (Bytes × Bytes) → Content → Content
put_all [] m = m
put_all (kv ∷ kvs) m = put_all kvs (BtreeMap.insert kv.0 kv.1 m)

pub add_all-put_all :
    (kvs : List (Bytes × Bytes)) (b : Builder)
    → add_all kvs b ≡ record b { content = put_all kvs b.content }
unfolding add_value_rlp
add_all-put_all [] b = refl
add_all-put_all (kv ∷ kvs) b = add_all-put_all kvs (add_value_rlp kv.0 kv.1 b)
