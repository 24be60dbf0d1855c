-- ===== src/Lib.antt =====
-- Ethereum node records: the crate `enr`, modelled and verified.
--
-- A record (`Enr`, src/lib.rs) is a sequence number, a sorted map from keys to RLP values, the
-- identifier of the node whose key signed it, and that key's signature. The program builds records
-- (src/builder.rs), changes and signs them again, encodes and decodes them (src/lib.rs), and takes the
-- key type as a trait that four types implement (src/keys). The model is a shallow embedding, and
-- every function is named as in the source:
--   Prelude, Bytes   results, panics, lists and tests on the native numbers; byte strings, their
--                    lexicographic order, and the names of the reserved keys
--   BtreeMap         `BTreeMap<Key, _>` as a list that insertion keeps sorted
--   Error            src/error.rs
--   Keys.Traits      src/keys/mod.rs: a trait is a record of its methods
--   Keys.K256, Keys.Ed25519, Keys.RustSecp256k1, Keys.Combined
--                    src/keys/k256_key.rs, ed25519.rs, rust_secp256k1.rs, combined.rs
--   Keys.MockRng     the generator of the tests of src/keys/rust_secp256k1.rs
--   Keys.Laws        what the traits promise, the interface that the laws of records use; its children
--                    show that the key types keep it
--   NodeId           src/node_id.rs, and `digest` of src/lib.rs
--   Enr              src/lib.rs: Defs, Getters, Encode, Decode, Iter, Format are the state, what is read
--                    off it, its codecs, its iterators, and its printed, copied and serialized forms;
--                    Action, Reserved, Sign, Setters, Socket, RemoveInsert are the operations on
--                    `&mut self`, and Calls has each of them as a value. Three modules describe the
--                    program without its code: Grammar the bytes and texts that are records, Abstract
--                    what each update does to what is read, Outcome when an update ends and with which
--                    record; Reads.Stored says when a getter finds an address, a port or a socket. The
--                    children of Grammar, Refines and Outcomes compare the code with them.
--                    Safety follows any sequence of calls, Reach those that keep a record valid, and
--                    Exchange sends and reads what they leave; Room bounds the size of a record by what
--                    it stores, and has when updates fit; the other children are laws of
--                    single operations
--   Builder          src/builder.rs, and `Enr::builder` and `Enr::empty` of src/lib.rs, in Defs; its other
--                    children are laws
--   UnitTests        unit tests of src/lib.rs and src/node_id.rs as programs that panic where an assertion
--                    fails; Passes has when they do not, over any key and any crates that keep their
--                    promises, and Vectors the test vectors, with tests/ecdsa/rust_secp256k1.rs
--   Tests            concrete crates, and runs
--
-- An operation on `&mut self` is a function of the record, and returns a result with the record that it
-- leaves, or a panic (`expect`, `unwrap`): what an error leaves behind is part of the model. Bytes are
-- numbers; a `u16` or `u64` is a number below 2^16 or 2^64 by hypothesis, and `checked_add` is written
-- out. `usize` is a number: lengths stay below 2^64 in memory. There is no fuel in the
-- code: every loop is structural recursion on the list of pairs, keys or items that it walks. `drain`
-- of Enr.Iter, which runs an iterator, counts its rounds; as many as there are pairs are enough. What a
-- signature draws from `OsRng`, and what `rand::random` returns, are arguments.
--
-- The crates are parameters (Crates, and the first record of each key module), with their documented
-- behaviour as named laws: `rlp` 0.5 (RlpLaws), `sha3` (KeccakLaws), `base64` and `hex` (Base64Laws,
-- HexLaws), `k256`, `ed25519-dalek` and `secp256k1` (K256Laws, Ed25519Laws, Secp256k1Laws,
-- SecretKeysLaws). A view of the crate `rlp` stands for its bytes. `check_spec_reserved_keys` decodes a
-- record with `k256` keys, which is why the insertions take a second key type.
--
-- Not modelled: logging; the layout that std gives to `Debug` output, of which the fields are modelled;
-- the serializer and deserializer of serde, which are the text handed over, and so the tests of the
-- output of serde_json. Whether the test vectors pass is not decided: they name the results of the real
-- curves, hashes and codecs, which are parameters.
--
-- "A valid record", "the signer's" record, "sound content" and "a sound value" are `IsValid`,
-- `IsOwned`, `IsSound` and `IsSoundEntry` of Enr.Valid; "the promises of the traits" is `KeyLaws` of
-- Keys.Laws, and a key type "reads a stored key as that key" if it is `IsUnambiguous` there: the
-- combined key type, which prefers one kind of key, is not. The laws of the crates that a theorem takes
-- are not repeated below.
pub mod Prelude
pub mod Bytes
pub mod BtreeMap
pub mod Crates
pub mod Error
pub mod Keys
pub mod NodeId
pub mod Enr
pub mod Builder
pub mod UnitTests
pub mod Tests
