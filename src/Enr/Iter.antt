-- ===== src/Enr/Iter.antt =====
-- The iterators of src/lib.rs: `iter`, and the owning `EnrIntoIter`.
use enr.Prelude.{ℕ, zero, suc, List, [], ◌∷◌, Option, none, some}
use enr.Bytes.{Bytes}
use enr.Keys.Traits.{Content}
use enr.Enr.Defs.{Enr}

-- `Enr::iter`, all of its items
unfoldable pub iter : Enr → List (Bytes × Bytes)
iter e = e.content

-- `struct EnrIntoIter`: the entries that are still to come
pub record EnrIntoIter : Type 0 where
  pub inner : Content

-- `IntoIterator for Enr`
unfoldable pub into_iter : Enr → EnrIntoIter
into_iter e = record { inner = e.content }

abbrev next_of : Content → Option (Bytes × Bytes) × EnrIntoIter
next_of [] = (none, record { inner = [] })
next_of (entry ∷ rest) = (some entry, record { inner = rest })

-- `Iterator::next`, with the iterator that it leaves
unfoldable pub next : EnrIntoIter → Option (Bytes × Bytes) × EnrIntoIter
next it = next_of it.inner

-- A `for` loop over the iterator, cut off after `n` rounds: the items that it has seen.
unfoldable pub drain : ℕ → EnrIntoIter → List (Bytes × Bytes)
unfolding next
drain zero it = []
drain (suc n) it =
    let (item, left) = next it in
    let rest = drain n left in elim item [ none ↦ [] | some entry ↦ entry ∷ rest ]
