-- ===== src/Enr/Safety/Steps.antt =====
-- The steps that the updates are made of.
use enr.Prelude.{
  ◌+◌, ◌^◌, ◌≡◌, refl, Bool-cases, inl, inr, Option, none, some, Result, ok, err, ret, ltb, ltb→lt,
}
use enr.Bytes.{Bytes}
use enr.BtreeMap
use enr.BtreeMap.Laws.{remove-IsSorted, All-remove, All-get}
use enr.Crates.Rlp.{Rlp, RlpLaws}
use enr.Crates.Hashing.{Keccak256, KeccakLaws}
use enr.Error.{EnrError, sequence_number_too_high}
use enr.Keys.Traits.{Content, Entropy, EnrKey}
use enr.Keys.Laws.{KeyLaws}
use enr.Enr.Defs.{Enr}
use enr.Enr.Action.{
  gets, content_insert, content_remove, content_revert, increment_seq, update_node_id,
}
use enr.Enr.Sign.{compute_signature, sign, commit}
use enr.Enr.Valid.{IsSound, IsSoundEntry, Entry, insert-IsSound}
use enr.Enr.Total.{of_public_key_total}
use enr.Enr.Total.Updates.{compute_signature_total}
use enr.Enr.Safety.{Ends, Keeps, Anything, Keeps-then}

module _ ⦃rlp : Rlp⦄ where
  pub Keeps-gets : {A : Type 0} (f : Enr → A) → Keeps Anything (gets f)
  Keeps-gets f e s = record { result = ok (f e); left = e; returned = refl; safe = s; post = tt }

  -- What a lookup in a safe record finds may be stored under that key again.
  abbrev pub Returnable : Bytes → Option Bytes → Type 0
  Returnable key none = Unit
  Returnable key (some v) = IsSoundEntry key v

  found-Returnable :
      (key : Bytes) (content : Content)
      → IsSound content
      → Returnable key (BtreeMap.get key content)
  found-Returnable key content s = by_found (BtreeMap.get key content) refl
    where
      by_found : (o : Option Bytes) → BtreeMap.get key content ≡ o → Returnable key o
      by_found none i = tt
      by_found (some v) i = All-get Entry key {v = v} content s.entries i

  remove-IsSound :
      (key : Bytes) (content : Content) → IsSound content → IsSound (BtreeMap.remove key content)
  remove-IsSound key content s = record {
    sorted = remove-IsSorted key content s.sorted;
    entries = All-remove Entry key content s.entries;
  }

  pub Keeps-content_insert :
      (key value : Bytes)
      → IsSoundEntry key value
      → Keeps (Returnable key) (content_insert key value)
  Keeps-content_insert key value entry e s = record {
    result = ok (BtreeMap.get key e.content);
    left = record e { content = BtreeMap.insert key value e.content };
    returned = refl;
    safe = record {
      seq_range = s.seq_range;
      sound = insert-IsSound key value e.content entry s.sound;
    };
    post = found-Returnable key e.content s.sound;
  }

  pub Keeps-content_remove : (key : Bytes) → Keeps (Returnable key) (content_remove key)
  Keeps-content_remove key e s = record {
    result = ok (BtreeMap.get key e.content);
    left = record e { content = BtreeMap.remove key e.content };
    returned = refl;
    safe = record { seq_range = s.seq_range; sound = remove-IsSound key e.content s.sound };
    post = found-Returnable key e.content s.sound;
  }

  pub Keeps-content_revert :
      (key : Bytes) (previous : Option Bytes)
      → Returnable key previous
      → Keeps (Returnable key) (content_revert key previous)
  Keeps-content_revert key none r = Keeps-content_remove key
  Keeps-content_revert key (some v) r = Keeps-content_insert key v r

  Keeps-increment_seq : Keeps Anything increment_seq
  Keeps-increment_seq e s = elim (Bool-cases (ltb (e.seq + 1) (2 ^ 64))) [
    | inl more ↦ record {
      result = ok tt;
      left = record e { seq = e.seq + 1 };
      returned = rw more refl;
      safe = record { seq_range = ltb→lt _ _ more; sound = s.sound };
      post = tt;
    }
    | inr full ↦ record {
      result = err sequence_number_too_high;
      left = e;
      returned = rw full refl;
      safe = s;
      post = tt;
    }
  ]

  module _ (law : RlpLaws rlp) ⦃keccak : Keccak256⦄ (keccak_law : KeccakLaws keccak) {K P : Type 0}
      (keys : EnrKey K P) (key_law : KeyLaws keys) where
    pub Keeps-sign : (rng : Entropy) (k : K) → Keeps Anything (sign keys rng k)
    unfolding sign
    Keeps-sign rng k e s =
        let (r, computed) = compute_signature_total law keccak_law keys key_law rng k e s.sound in
        by_result r computed
      where
        by_result :
            (r : Result EnrError Bytes)
            → compute_signature keys rng k e ≡ ret r
            → Ends Anything (sign keys rng k e)
        by_result (ok sig) h = record {
          result = ok e.signature;
          left = record e { signature = sig };
          returned = rw (h, sign) refl;
          safe = record { seq_range = s.seq_range; sound = s.sound };
          post = tt;
        }
        by_result (err x) h = record {
          result = err x;
          left = e;
          returned = rw (h, sign) refl;
          safe = s;
          post = tt;
        }

    Keeps-update_node_id : (k : K) → Keeps Anything (update_node_id keys k)
    Keeps-update_node_id k e s =
        let (n, named) = of_public_key_total law keccak_law keys key_law (keys.public k) in
        record {
          result = ok tt;
          left = record e { node_id = n };
          returned = rw named refl;
          safe = record { seq_range = s.seq_range; sound = s.sound };
          post = tt;
        }

    pub Keeps-commit : (k : K) (rng : Entropy) → Keeps Anything (commit keys k rng)
    unfolding commit
    Keeps-commit k rng =
        Keeps-then increment_seq _ Keeps-increment_seq
          (λ _ _. Keeps-then (sign keys rng k) _ (Keeps-sign rng k) (λ _ _. Keeps-update_node_id k))
