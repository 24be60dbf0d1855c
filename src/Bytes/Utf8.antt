-- ===== src/Bytes/Utf8.antt =====
-- `String::from_utf8_lossy`: valid UTF-8 is kept, and each maximal ill-formed part becomes U+FFFD.
use enr.Prelude.{ℕ, zero, suc, [], ◌∷◌, ◌++◌, ltb, leb, Bool, ◌&&◌, if◌then◌else◌}
use enr.Prelude.{◌==◌ as nat_eq, ◌≡◌, refl}
use enr.Bytes.Order.{Bytes}

-- The decoder between two bytes: what it holds back, how many bytes are still to come, and the
-- range of the next one.
record Pending : Type 0 where
  held : Bytes
  awaited : ℕ
  low : ℕ
  high : ℕ

abbrev idle : Pending
idle = record { held = []; awaited = 0; low = 0; high = 0 }

abbrev replacement : Bytes
replacement = 0xef ∷ 0xbf ∷ 0xbd ∷ []

abbrev await : ℕ → ℕ → ℕ → ℕ → Pending
await b n low high = record { held = b ∷ []; awaited = n; low = low; high = high }

abbrev is_within : ℕ → ℕ → ℕ → Bool
is_within low high b = leb low b && leb b high

-- A byte at the start of a character: the output, and the state after it.
start : ℕ → Bytes × Pending
start b =
    if ltb b 0x80
    then (b ∷ [], idle)
    else if is_within 0xc2 0xdf b
    then ([], await b 1 0x80 0xbf)
    else if nat_eq b 0xe0
    then ([], await b 2 0xa0 0xbf)
    else if nat_eq b 0xed
    then ([], await b 2 0x80 0x9f)
    else if is_within 0xe1 0xef b
    then ([], await b 2 0x80 0xbf)
    else if nat_eq b 0xf0
    then ([], await b 3 0x90 0xbf)
    else if is_within 0xf1 0xf3 b
    then ([], await b 3 0x80 0xbf)
    else if nat_eq b 0xf4
    then ([], await b 3 0x80 0x8f)
    else (replacement, idle)

-- The next byte of a character, with `more` bytes to come after it.
continue_at : Pending → ℕ → ℕ → Bytes × Pending
unfolding start
continue_at p zero b = start b
continue_at p (suc zero) b =
    if is_within p.low p.high b
    then (p.held ++ b ∷ [], idle)
    else let (out, q) = start b in (replacement ++ out, q)
continue_at p (suc (suc n)) b =
    if is_within p.low p.high b
    then ([], record { held = p.held ++ b ∷ []; awaited = suc n; low = 0x80; high = 0xbf })
    else let (out, q) = start b in (replacement ++ out, q)

lossy_from : Pending → Bytes → Bytes
unfolding continue_at
lossy_from p [] = if nat_eq p.awaited 0 then [] else replacement
lossy_from p (b ∷ bs) = let (out, q) = continue_at p p.awaited b in out ++ lossy_from q bs

unfoldable pub from_utf8_lossy : Bytes → Bytes
unfolding lossy_from
from_utf8_lossy = lossy_from idle

-- U+00E9, then a cut U+20AC, then `x`
lossy_runs :
    from_utf8_lossy (0xc3 ∷ 0xa9 ∷ 0xe2 ∷ 0x82 ∷ b'x' ∷ [])
    ≡ 0xc3 ∷ 0xa9 ∷ 0xef ∷ 0xbf ∷ 0xbd ∷ b'x' ∷ []
unfolding from_utf8_lossy
lossy_runs = refl
