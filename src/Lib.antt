-- ===== src/Lib.antt =====
-- narwal-publisher publishes Nix store paths as a binary cache: it finds the closure of the input
-- paths, uploads blobs to Blossom servers, builds a content-addressed directory tree over their
-- narinfo entries and announces its root as a Nostr event. This library models the parts of the
-- program that compute.
--
-- Parts and files:
-- - Prelude: lists, texts, results and maps that the other modules share. Texts and bytes are lists
--   of numbers; a `HashMap` is an association list, a `HashSet` a list with a Boolean test.
-- - Manifest models src/manifest.rs: `build_directory_tree` sorts the entries, cuts them into
--   leaves of at most `MAX_LINKS` links and adds levels of parents until one node is left;
--   Manifest/Sorting is about the order, Manifest/Levels about the levels, Manifest/Agreement about
--   permuted entries and the single node of `build_directory_node`.
-- - BlossomFetch models src/blossom_fetch.rs: `fetch` tries the servers in order and checks the
--   hash of what it gets. The replies of HTTP are a parameter.
-- - TreeReader models src/tree_reader.rs: `flatten_tree` walks a tree through `fetch`.
-- - Nhash models src/nhash.rs and `parse_nhash_uri` of src/tree_reader.rs: the URI of a root.
-- - StorePath models `hash_part` of src/store_path.rs.
-- - Closure models src/closure.rs: the candidates of the store, the worklist search (Closure/Steps,
--   Closure/SearchInv, Closure/Search, Closure/Fuel), the depth-first sort (Closure/Order) and both
--   together (Closure/Resolve, Closure/Correct, Closure/Ending).
-- - Secrets models src/secrets.rs, Signing models src/signing.rs, Narinfo src/narinfo.rs, and
--   Compress src/compress.rs and src/nar.rs.
-- - Nostr models src/nostr_pub.rs and src/nostr_fetch.rs: the tags of a root event, and which event
--   is read as the latest root.
-- - Blossom models src/blossom.rs: the session token and the uploads. What the clock, the signer
--   and the servers answer is a function of the exchanges so far. Blossom/AuthHeader, Blossom/Put,
--   Blossom/OneServer and Blossom/Upload follow the exchanges of an upload, from the inside out.
-- - Publish models src/lib.rs on top of all of these: Publish/Plan is what `publish` reads at
--   first, Publish/Paths the blobs of one path, Publish/Steps the run with its actions;
--   Publish/Order, Publish/Outcome, Publish/Held, Publish/Produced, Publish/Made, Publish/Finish
--   and Publish/Last are about the actions and their order, Publish/DryRun about dry runs and
--   Publish/Merge about the entries of the tree. The uploader is an interface that Publish/Uploads
--   fills with the one of Blossom; Publish/Keeps and Publish/Confirmed carry what its exchanges say
--   over a whole run. Publish/NextRun, on Publish/Existing, Publish/Lookup and Publish/Sized,
--   Publish/Again and Publish/CacheInfo are about a run that reads what an earlier one announced.
-- - Cli models the checks of src/main.rs.
-- - Nip46/Session models src/nip46/session.rs, the pairing file.
-- - Nip46/Signer, Nip46/Transport, Nip46/Bunker and Nip46/Operations model src/nip46/signer.rs:
--   Nip46/Signer the messages and the requests that wait, with Nip46/Signer/Poll the wait for a
--   relay; Nip46/Transport `BunkerSigner` with `ensure_started` and `rpc_raw`; Nip46/Bunker its
--   constructors; Nip46/Operations the handshake, the user key and the methods of `NostrSigner`.
--   Nip46/Protocol is about the order of the exchanges over any sequence of operations.
-- - Nip46/Pair models of src/nip46/pair.rs the relays, the URI and the QR code (Nip46/Pair/Qr) and
--   the wait for the signer (Nip46/Pair/Accept); Nip46/Pairing models `pair_fresh` and
--   Nip46/Pairing/Reuse `pair_via_qr`, on top of the file system and the signer. Publish/Plan gets
--   its signer from them.
-- - Samples runs the code on small inputs, with a toy hash and a toy encoding.
--
-- Parameters: MessagePack (`to_vec_named`, `from_slice`), SHA-256, hexadecimal, bech32, HTTP, the
-- listing of the store and the scan of a path for references. What the code relies on of them is a
-- hypothesis where a theorem needs it: that decoding inverts encoding, and of SHA-256 only that it
-- gives 32 bytes.
--
-- Fuel: the levels of a tree get as much as there are leaves, since each level is smaller than the
-- one below; the TLV loop gets the length of its input, of which each round takes two bytes; the
-- worklist search gets a round for each input and for each reference of a candidate; the
-- depth-first visit goes one level deeper only at a hash part that was not visited. The walk of a
-- tree takes its fuel as an argument, since the tree is what the servers hold.
--
-- Time limits: the events that a request waits for are those that are handled until its limit; a
-- call around which `timeout` stands may be cut off in a state that is a parameter. The wait for a
-- relay gets a poll for each 250 ms of its budget and two more, since a poll sleeps that long.
--
-- Not modelled: logging and what is printed, the parsing of arguments, and requests to the remote
-- signer at the same time.
pub mod Prelude
pub mod Manifest
pub mod BlossomFetch
pub mod TreeReader
pub mod Nhash
pub mod StorePath
pub mod Closure
pub mod Secrets
pub mod Compress
pub mod Narinfo
pub mod Signing
pub mod Nostr
pub mod Blossom
pub mod Publish
pub mod Cli
pub mod Nip46
pub mod Samples
