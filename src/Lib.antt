-- ===== src/Lib.antt =====
-- holofs: the logic of a distributed object store that spreads coded shards over nodes.
--
-- The parts and their files (paths from the repository's root):
--
-- Gf models crates/holofs-core/src/gf.rs: `Gf::new` fills the tables exp and log, `mul` and `inv` read
-- them. A byte is a number below 256. Gf/Xor has the laws of exclusive or, Gf/Tables what the tables
-- hold, Gf/Field the laws of the field, Gf/Polynomial an independent multiplication of polynomials.
--
-- Rng models crates/holofs-core/src/rng.rs: the state is passed along.
--
-- Rlnc models crates/holofs-core/src/rlnc.rs: Rlnc/Encode has `encode_layer_with_k` and `encode_layer`,
-- Rlnc/Decode has `decode_layer_with_k` and `decode_layer`, Rlnc/Holes has `decode_layer_with_holes`,
-- Rlnc/Gauss the elimination that the decoders share. A panic is a value of its own (`panic`, or `none`
-- where there is no other failure). A row is the coefficients of the unknown chunks followed by payload
-- bytes; Rlnc/Linear treats it as a linear form, Rlnc/Pivot, Rlnc/Annihilate and Rlnc/Reduce follow one
-- pivot, Rlnc/Solve the whole loop, Rlnc/Solution the meaning of its result.
-- Rlnc/Consistent says what ties a shard to the source chunks, Rlnc/Encoder and Rlnc/Encoded follow the
-- encoder; Rlnc/Known, Rlnc/Reduction and Rlnc/Assembled the decoder from the sorting of the shards to its
-- output, Rlnc/Systematic its fast path, and
-- Rlnc/RoundTrip joins both.
--
-- Repair models `mix_donors` of crates/holofs-core/src/repair.rs, on the rows and forms of Rlnc.
--
-- Sha256 models crates/holofs-core/src/hash.rs: Sha256/Compress is `process_block`, Sha256 the hasher with
-- its buffer, Sha256/Stream hashing in pieces.
--
-- Codec holds what the formats share: Codec/Bytes big-endian numbers, Codec/Utf8 the checks of
-- `String::from_utf8` and `from_utf8_lossy`, Codec/Io the errors, Codec/Cursor the reader that
-- crates/holofs-wire/src/wire.rs and crates/holofs-model/src/manifest.rs both have. A reader takes the
-- bytes that are left. Codec/Reads and Codec/Extends are the rules by which a reader undoes a writer and
-- by which a cut buffer is refused.
--
-- Wire models crates/holofs-wire/src/wire.rs: Wire/Frame frames, Wire/Request and Wire/Response the
-- messages, Wire/ShardFormat the shards in them. A stream is the list of its bytes;
-- Wire/Frame/Accepts describes the streams that are frames.
--
-- Placement models crates/holofs-model/src/placement.rs: the choice of a node for a shard, with the
-- binary search of the library written out; Placement/Zones is the layout of a layer over zones.
--
-- Manifest models crates/holofs-model/src/manifest.rs: Manifest/Encode, Manifest/Decode and, for
-- `place_shard`, Manifest/Place. Catalog models crates/holofs-model/src/fs.rs: the map from names to
-- manifests, a `BTreeMap` in the source and here the list of its entries in order, and its file; Catalog/Directories has
-- `synthesize_missing_directories`, which Catalog/Ancestry, Catalog/NewNames and Catalog/Synthesis follow. CatalogPath models
-- crates/holofs-model/src/path.rs: the paths that are those names.
--
-- Text models crates/holofs-codec/src/text_codec.rs on the bytes of a text; Text/Slices follows the split points.
--
-- Range models crates/holofs-web/src/range.rs: the HTTP `Range` header.
--
-- Merkle models crates/holofs-core/src/merkle.rs, without `data_cid`: the hash of a shard and the root of a
-- list of hashes. Merkle/Binding and Merkle/ShardHash say what a root and a hash commit to.
--
-- Storage models crates/holofs-storage/src/node_service.rs. A `HashMap` is a list of pairs (Storage/HashMap);
-- the order in which it is walked is one of those that the library may choose. Storage/Files has the shard
-- files: a disk maps paths to contents, what the code asks of the file system is a list of operations, and a
-- fault stops it after any number of them, after any byte of a write. Storage has `Store`, Storage/Handler
-- `handle_request` and the loop of `handle_connection`; the lock of the store makes a schedule of requests of
-- several connections a list. Storage/Filed is the invariant of the store, Storage/View what its operations do
-- to a look-up, Storage/Refines the specification of a node as a function from places and hashes to shards,
-- Storage/Crash what a crash leaves of a file, Storage/RoundTrip what is read from it, Storage/Total the books.
-- Storage/Mirror ties the files to the index, with the names of Storage/Paths; Storage/Removal, Storage/Purged and
-- Storage/Durable follow the requests, Storage/Restart a new start. The removal of a file is taken to succeed.
-- The signature of a node is a parameter.
--
-- Client models `rpc`, `gather_layer`, `put_opaque_object`, `get_opaque_object` and `repair_node` of
-- crates/holofs-client/src/client.rs. The network is a parameter that answers anything or fails; Client/Cluster
-- is one in which each address leads to a node of Storage. Client/Gather and Client/Opaque are the code; an
-- outcome is a value, an error without its text, or a panic. Client/Integrity and Client/OpaqueIntegrity are
-- about any network, as are Client/GoodHashes and Client/RepairIntegrity for Client/Repair; Client/Ready, Client/Places,
-- Client/AfterPut, Client/Transport, Client/Complete and Client/OpaqueComplete are about the cluster.
-- Rlnc/Layer and Rlnc/LayerRoundTrip have what these need of the coder with the constant `K`.
--
-- Machine integers are natural numbers; where the source's sums and products wrap, the wrap is written
-- out. The loops are structural recursion on lists or on the number of rounds left. The binary search has
-- its number of elements as fuel, which is more than its halvings. The lengths of the formats are cut to
-- their fields (`as u16`, `as u32`) as in the source, so that the round trips ask for lengths that fit. The loop
-- of a connection has the number of received bytes and one more as fuel: each round reads the four bytes of a
-- length at least. The levels of a Merkle tree have the number of leaves.
--
-- Not modelled: file and network input and output, timers, TLS and signatures, floating-point
-- transforms (with `data_cid` and the objects of images and audio), the user interface,
-- the client's texts, the discovery of live nodes, and cluster maintenance.
pub mod Prelude
pub mod Codec
pub mod Shard
pub mod Wire
pub mod Gf
pub mod Rng
pub mod Rlnc
pub mod CatalogPath
pub mod Placement
pub mod Manifest
pub mod Catalog
pub mod Range
pub mod Repair
pub mod Sha256
pub mod Merkle
pub mod Storage
pub mod Client
pub mod Text
