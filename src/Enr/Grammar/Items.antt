-- ===== src/Enr/Grammar/Items.antt =====
-- The loop over the items accepts the pairs of the grammar, and no others.
use enr.Prelude.{
  ◌≡◌, inl, inr, refl, sym, ap, ◌∙◌, subst, List, [], ◌∷◌, ◌++◌, true, false, Bool, Bool-cases,
  Option, none, some, ok, All, arith, append_assoc, append-nil,
}
use enr.Prelude.Fallible.{>>=-ok}
use enr.Bytes.{Bytes, tcp_key, tcp6_key, udp_key, udp6_key}
use enr.Bytes.Laws.{◌≺◌, compare_refl, eq_of_compare, lt_trans}
use enr.Crates.Rlp.{Rlp, DecoderError}
use enr.Keys.Traits.{Content}
use enr.Enr.Decode.{is_keyof_u16, is_unsorted, sanitize, reject_if, read_pairs}
use enr.Enr.Grammar.{IsPortKey, Follows, Admits, port, bytes, Pairs, no_pair, pair}
use enr.BtreeMap.Laws.{insert-append}
use enr.Enr.RoundTrip.{read_pairs-step}

is_keyof_u16-IsPortKey : (key : Bytes) → is_keyof_u16 key ≡ true → IsPortKey key
unfolding is_keyof_u16
is_keyof_u16-IsPortKey key h = ground (
  arith,
  eq_of_compare key tcp_key,
  eq_of_compare key tcp6_key,
  eq_of_compare key udp_key,
  eq_of_compare key udp6_key,
)

IsPortKey-is_keyof_u16 : (key : Bytes) → IsPortKey key → is_keyof_u16 key ≡ true
unfolding is_keyof_u16
IsPortKey-is_keyof_u16 key h = ground (arith, compare_refl key)

is_unsorted-Follows :
    (prev : Option Bytes) (key : Bytes) → is_unsorted prev key ≡ false → Follows prev key
is_unsorted-Follows none key h = tt
is_unsorted-Follows (some p) key h = ground arith

Follows-is_unsorted :
    (prev : Option Bytes) (key : Bytes) → Follows prev key → is_unsorted prev key ≡ false
Follows-is_unsorted none key h = refl
Follows-is_unsorted (some p) key h = ground arith

-- The keys taken so far lie below every key that may follow.
abbrev Reached : Option Bytes → Content → Type 0
Reached none acc = acc ≡ []
Reached (some p) acc = (q : Bytes) → p ≺ q → All (λ (entry : Bytes × Bytes). entry.0 ≺ q) acc

All-below_trans :
    (p q : Bytes) (acc : Content)
    → p ≺ q
    → All (λ (entry : Bytes × Bytes). entry.0 ≺ p) acc
    → All (λ (entry : Bytes × Bytes). entry.0 ≺ q) (acc)
All-below_trans p q [] h a = tt
All-below_trans p q ((j, w) ∷ acc) h a = (lt_trans j p q a.0 h, All-below_trans p q acc h a.1)

All-below_append :
    (q k v : Bytes) (acc : Content)
    → All (λ (entry : Bytes × Bytes). entry.0 ≺ q) acc
    → k ≺ q
    → All (λ (entry : Bytes × Bytes). entry.0 ≺ q) (acc ++ (k, v) ∷ [])
All-below_append q k v [] a h = (h, tt)
All-below_append q k v ((j, w) ∷ acc) a h = (a.0, All-below_append q k v acc a.1 h)

Reached-below :
    (prev : Option Bytes) (key : Bytes) (acc : Content)
    → Reached prev acc
    → Follows prev key
    → All (λ (entry : Bytes × Bytes). entry.0 ≺ key) acc
Reached-below none key acc r f = subst (All (λ (entry : Bytes × Bytes). entry.0 ≺ key)) (sym r) tt
Reached-below (some p) key acc r f = r key f

Reached-step :
    (prev : Option Bytes) (key v : Bytes) (acc : Content)
    → Reached prev acc
    → Follows prev key
    → Reached (some key) (acc ++ (key, v) ∷ [])
Reached-step prev key v acc r f q h =
    All-below_append q key v acc (All-below_trans key q acc h (Reached-below prev key acc r f)) h

module _ ⦃rlp : Rlp⦄ where
  sanitize-Admits : (key value : Bytes) → sanitize key value ≡ ok tt → Admits key value
  unfolding sanitize
  sanitize-Admits key value h = elim (Bool-cases (is_keyof_u16 key)) [
    | inl is_port ↦
        let (_, decoded, _) = >>=-ok (rlp.decode_u16 value) _ (rw is_port at h) in
        port (is_keyof_u16-IsPortKey key is_port) decoded
    | inr other ↦
        let (_, read, _) = >>=-ok (rlp.data_of value) _ (rw other at h) in
        bytes (λ p. absurd (cc (IsPortKey-is_keyof_u16 key p))) read
  ]

  Admits-sanitize : (key value : Bytes) → Admits key value → sanitize key value ≡ ok tt
  unfolding sanitize
  Admits-sanitize key value (port p decoded) = rw (IsPortKey-is_keyof_u16 key p) (rw decoded refl)
  Admits-sanitize key value (bytes other read) = elim (Bool-cases (is_keyof_u16 key)) [
    | inl is_port ↦ absurd (other (is_keyof_u16-IsPortKey key is_port))
    | inr is_other ↦ rw is_other (rw read refl)
  ]

  reject_if-false : (b : Bool) (x : DecoderError) → reject_if b x ≡ ok tt → b ≡ false
  reject_if-false b x h = ground arith

  pub read_pairs-Pairs :
      (prev : Option Bytes) (items : List Bytes) (acc content : Content)
      → Reached prev acc
      → read_pairs prev items acc ≡ ok content
      → (rest : Content) × Pairs prev items rest × (content ≡ acc ++ rest)
  unfolding read_pairs
  read_pairs-Pairs prev [] acc content r h = ([], no_pair, rw (append-nil acc) (cc))
  read_pairs-Pairs prev (k ∷ []) acc content r h =
      let (_, _, refused) = >>=-ok (rlp.data_of k) _ h in absurd (cc refused)
  read_pairs-Pairs prev (k ∷ item ∷ items) acc content r h =
      let (key, read, h₁) = >>=-ok (rlp.data_of k) _ h in
      let (_, sane, h₂) = >>=-ok (sanitize key item) _ h₁ in
      let (_, ordered, h₃) = >>=-ok (reject_if (is_unsorted prev key) _) _ h₂ in
      let follows = is_unsorted-Follows prev key (reject_if-false _ _ ordered) in
      let appended = insert-append key item acc (Reached-below prev key acc r follows) in
      let (rest, pairs, same) =
        read_pairs-Pairs (some key) items (acc ++ (key, item) ∷ []) content
          (Reached-step prev key item acc r follows) (rw appended at h₃) in
      (
        (key, item) ∷ rest,
        pair read (sanitize-Admits key item sane) follows pairs,
        same ∙ append_assoc acc ((key, item) ∷ []) rest,
      )

  pub Pairs-read_pairs :
      (prev : Option Bytes) (items : List Bytes) (acc rest : Content)
      → Reached prev acc
      → Pairs prev items rest
      → read_pairs prev items acc ≡ ok (acc ++ rest)
  unfolding read_pairs
  Pairs-read_pairs prev items acc rest r no_pair = rw (append-nil acc) refl
  Pairs-read_pairs prev items acc rest r
        (pair {key = key} {value = value} {items = more} {rest = after} read admits follows pairs) =
      read_pairs-step prev _ value key more acc read (Admits-sanitize key value admits)
        (Follows-is_unsorted prev key follows)
      ∙ rw (insert-append key value acc (Reached-below prev key acc r follows)) (
          Pairs-read_pairs (some key) more (acc ++ (key, value) ∷ []) after
            (Reached-step prev key value acc r follows) pairs)
      ∙ ap ok (append_assoc acc ((key, value) ∷ []) after)
