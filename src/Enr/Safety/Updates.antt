-- ===== src/Enr/Safety/Updates.antt =====
-- The updates of src/lib.rs that do the work of all others.
use enr.Prelude.{ℕ, ◌^◌, ◌<◌, ◌≡◌, refl, false, Bool-cases, inl, inr, Result, ok, err, ret, ltb}
use enr.Bytes.{Bytes}
use enr.Crates.Rlp.{Rlp, RlpLaws}
use enr.Crates.Hashing.{Keccak256, KeccakLaws}
use enr.Error.{EnrError, exceeds_max_size}
use enr.Keys.Traits.{Entropy, EnrKey}
use enr.Keys.Laws.{KeyLaws}
use enr.Enr.Defs.{Enr, max_enr_size}
use enr.Enr.Encode.{size}
use enr.Enr.Decode.{is_keyof_u16}
use enr.Enr.Action.{gets, content_insert, content_revert}
use enr.Enr.Sign.{sign, commit, set_seq}
use enr.Enr.Setters.{store}
use enr.Enr.Socket.{Entries, set_entries}
use enr.Enr.Valid.{
  IsSoundEntry, encode_bytes-IsSoundEntry, encode_uint-IsSoundEntry, public_key-IsSoundEntry,
}
use enr.Enr.Total.{of_public_key_total}
use enr.Enr.Safety.{IsSafe, Ends, Keeps, Anything, Keeps-pure, Keeps-raise, Keeps-if, Keeps-then}
use enr.Enr.Safety.Steps.{
  Keeps-gets, Keeps-content_insert, Keeps-content_revert, Keeps-sign, Keeps-commit,
}

module _ ⦃rlp : Rlp⦄ (law : RlpLaws rlp) where
  module _ ⦃keccak : Keccak256⦄ (keccak_law : KeccakLaws keccak) {K P : Type 0} (keys : EnrKey K P)
      (key_law : KeyLaws keys) where
    pub Keeps-store :
        (key value : Bytes) (k : K) (rng : Entropy)
        → IsSoundEntry key value
        → Keeps Anything (store keys key value k rng)
    unfolding store
    Keeps-store key value k rng entry =
        let p = keys.public k in
        Keeps-then (content_insert key value) _ (Keeps-content_insert key value entry)
          (λ previous_value returnable.
            Keeps-then (content_insert (keys.enr_key p) _) _
              (Keeps-content_insert (keys.enr_key p) _ (public_key-IsSoundEntry law keys key_law p))
              (λ previous_key key_returnable.
                Keeps-then (gets (λ e. ltb max_enr_size (size e))) _ (Keeps-gets _) (λ oversize _.
                  Keeps-if oversize _ _
                    (Keeps-then (content_revert (keys.enr_key p) previous_key) _
                      (Keeps-content_revert (keys.enr_key p) previous_key key_returnable)
                      (λ _ _.
                        Keeps-then (content_revert key previous_value) _
                          (Keeps-content_revert key previous_value returnable)
                          (λ _ _. Keeps-raise exceeds_max_size)))
                    (Keeps-then (commit keys k rng) _
                      (Keeps-commit law keccak_law keys key_law k rng)
                      (λ _ _.
                        Keeps-then (gets (λ e. ltb max_enr_size (size e))) _ (Keeps-gets _)
                          (λ grown _.
                            Keeps-if grown _ _ (Keeps-raise exceeds_max_size)
                              (Keeps-pure previous_value tt)))))))

    pub Keeps-set_entries :
        (s : Entries) (k : K) (rng : Entropy)
        → is_keyof_u16 s.ip_string ≡ false
        → s.port < 2 ^ 16
        → Keeps Anything (set_entries keys s k rng)
    unfolding set_entries
    Keeps-set_entries s k rng is_ip range =
        let p = keys.public k in
        Keeps-then (content_insert s.ip_string _) _
          (Keeps-content_insert s.ip_string _
            (encode_bytes-IsSoundEntry law s.ip_string s.octets is_ip))
          (λ prev_ip ip_returnable.
            Keeps-then (content_insert s.port_string _) _
              (Keeps-content_insert s.port_string _
                (encode_uint-IsSoundEntry law s.port_string s.port range))
              (λ prev_port port_returnable.
                Keeps-then (content_insert (keys.enr_key p) _) _
                  (Keeps-content_insert (keys.enr_key p) _
                    (public_key-IsSoundEntry law keys key_law p))
                  (λ previous_key key_returnable.
                    Keeps-then (gets (λ e. ltb max_enr_size (size e))) _ (Keeps-gets _)
                      (λ oversize _.
                        Keeps-if oversize _ _
                          (Keeps-then (content_revert (keys.enr_key p) previous_key) _
                            (Keeps-content_revert (keys.enr_key p) previous_key key_returnable)
                            (λ _ _.
                              Keeps-then (content_revert s.ip_string prev_ip) _
                                (Keeps-content_revert s.ip_string prev_ip ip_returnable)
                                (λ _ _.
                                  Keeps-then (content_revert s.port_string prev_port) _
                                    (Keeps-content_revert s.port_string prev_port port_returnable)
                                    (λ _ _. Keeps-raise exceeds_max_size))))
                          (Keeps-commit law keccak_law keys key_law k rng)))))

    pub Keeps-set_seq :
        (seq : ℕ) (k : K) (rng : Entropy) → seq < 2 ^ 64 → Keeps Anything (set_seq keys seq k rng)
    unfolding set_seq
    Keeps-set_seq seq k rng range e s =
        let renumbered : Enr = record e { seq = seq } in
        let d =
          Keeps-sign law keccak_law keys key_law rng k renumbered
            (record { seq_range = range; sound = s.sound }) in
        by_sign d.result d.left d.returned d.safe
      where
        by_sign :
            (r : Result EnrError Bytes) (e₁ : Enr)
            → sign keys rng k (record e { seq = seq }) ≡ ret (r, e₁)
            → IsSafe e₁
            → Ends Anything (set_seq keys seq k rng e)
        by_sign (err x) e₁ h s₁ = record {
          result = err x;
          left = record e₁ { seq = e.seq };
          returned = rw (h, set_seq) refl;
          safe = record { seq_range = s.seq_range; sound = s₁.sound };
          post = tt;
        }
        by_sign (ok old) e₁ h s₁ = elim (Bool-cases (ltb max_enr_size (size e₁))) [
          | inl big ↦ record {
            result = err exceeds_max_size;
            left = record e₁ { seq = e.seq; signature = old };
            returned = rw (h, set_seq) (rw big refl);
            safe = record { seq_range = s.seq_range; sound = s₁.sound };
            post = tt;
          }
          | inr fits ↦
              let (n, named) = of_public_key_total law keccak_law keys key_law (keys.public k) in
              record {
                result = ok tt;
                left = record e₁ { node_id = n };
                returned = rw (h, set_seq) (rw (fits, named) refl);
                safe = record { seq_range = s₁.seq_range; sound = s₁.sound };
                post = tt;
              }
        ]
