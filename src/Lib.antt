-- ===== src/Lib.antt =====
-- filum-crypto: the client-side cryptography of the Filum document store, a Rust crate with UniFFI
-- bindings for Swift.
--
-- A `Vault` holds the subkeys of a master secret (crates/filum-crypto/src/vault.rs, kdf.rs), which a
-- 24-word phrase can restore (recovery.rs). With them it encrypts blobs, in memory and from file to
-- file (blob.rs), encrypts metadata fields (metadata.rs), and signs challenges (auth.rs). Every
-- ciphertext is bound to its identifiers by associated data that one module builds (aad.rs). The
-- bindings (crates/filum-crypto-uniffi/src/lib.rs) check lengths and convert errors.
--
-- Files:
--   Prelude   shared types and lemmas: byte lists measured by native numbers, big-endian words,
--             Boolean tests; `Error` and `Result` of error.rs, and `M`, a state that outlives an
--             error, as the `?` operator leaves it
--   External  the crates that the program calls, as records of operations with what is relied on
--             about them: aes-gcm and its STREAM construction, OsRng, hkdf, bip39, ed25519-dalek
--   Toy       a concrete backend, for tests and witnesses only
--   Aad       aad.rs: blob_segment_aad, field_aad, blob_wrap_aad
--   Blob      blob.rs in memory: write_header, wrap_data_key, unwrap_data_key, encrypt_chunked,
--             decrypt_chunked. The part that both encoders share (identifier, data key, nonce prefix,
--             wrapped key, header) is `prepare`; the part that both decoders share is `open_header`.
--             Blob.Segments describes a body independently of both loops, as `seal` and `unseal`;
--             Blob.Binding and Blob.Integrity name the forgeries against the crates
--   Io        the part of std::fs and std::io that the file codec uses: a map from paths to contents
--             and whether they are synced, readers with a position, a write buffer, and a schedule of
--             what the operating system does at each operation (full, short, failing, or killing the
--             process, from where on no operation has an effect), which the theorems quantify over.
--             Io.Laws and Io.Publish say what each operation does, Io.Frame what it leaves alone,
--             Io.Growth how far a file has grown towards known bytes
--   File      blob.rs over files: read_full, encrypt_file_chunked, sibling_temp_path, TempCleanup,
--             decrypt_file_chunked. Reading, Loop, Sealing, Encrypt and Segments, Decrypt, Atomic,
--             Header, Outcome, Guarantees follow the two functions; Refusal is about an input whose
--             header is not taken; Frame and Rollback are about the files
--             that they leave alone, Progress and Leftover about an encryption that is stopped, Fuel
--             about the rounds of the loop, Integrity about a file that others have written to,
--             InPlace about one path for input and output
--   Auth      auth.rs: domain_separated, sign_challenge, verify_signature
--   Metadata  metadata.rs: encrypt_field, decrypt_field
--   Recovery  recovery.rs and kdf.rs: phrases and subkeys
--   Vault     vault.rs: Vault::open, Vault::from_recovery_phrase and the methods. Vault.Session has
--             sequences of operations as a relation. Vault.Ledger is the abstract view: which entry
--             (key, identifier, plaintext) a file stands for, with one rule for each operation
--   Concurrent  blob.rs over files, by several processes. Concurrent.Program has a function as the
--             sequence of calls that it makes, each depending on the answers so far; Concurrent.Codec
--             writes both functions so, and Concurrent.Agree compares them with File.
--             Concurrent.Processes has any number of processes over one map of files, which take
--             turns of one call in any order; each has its own program, random state, write buffer
--             and schedule of what the system does to it. Concurrent.Footprint and Reach say which
--             files a program consults and changes, Isolation what follows where these do not
--             overlap, Jobs and Suffixes when that is so, Publishing, Published and Complete what
--             the destination of several decryptions holds
--   Ffi       the bindings: error conversion, length checks, and each exported function;
--             Ffi.Lifecycle follows a master secret through them
--
-- Bounds and fuel. A length fits in 32 bits where the source calls `u32::try_from`, and a block
-- counter of 32 bits lets a stream take 2^32 - 1 segments before its last. `read_full_loop` has the
-- size of its buffer for fuel, since each round fills a byte at least; `segment_loop` has one round
-- more than there are full chunks in the file, which is enough as long as the loop does not write to
-- the file it reads; File.Fuel compares it with more.
--
-- Not modelled: zeroization and buffer capacities, which change no value; the redacted `Debug`
-- output; panics of the allocator; symbolic links and distinct paths to one file; an operation on a
-- file that another process changes between its calls, where the handle of an open file may name
-- another file than its path (processes that share only a destination are modelled); the code that
-- UniFFI generates, the Swift package, build files and scripts.
-- Cryptographic strength is not assumed: where a theorem would need it, its statement names the
-- forgery that is the only other outcome.
pub mod Prelude
pub mod External
pub mod Aad
pub mod Blob
pub mod Io
pub mod File
pub mod Auth
pub mod Metadata
pub mod Recovery
pub mod Vault
pub mod Concurrent
pub mod Ffi
mod Toy
