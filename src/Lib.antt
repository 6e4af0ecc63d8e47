-- ===== src/Lib.antt =====
-- Verification of mini-minio, an object store that keeps each object erasure-coded on several
-- drives.
--
-- An object is cut into blocks; Reed-Solomon coding turns a block into data and parity shards, and
-- each drive of an erasure set keeps one shard of each block beside the object's metadata. Writes
-- and commits need a quorum of drives, reads as many shards as there are data blocks. Drives are
-- local directories or are reached through an internal HTTP protocol.
--
-- Erasure (internal/erasure/erasure.go): Erasure.antt has the geometry (ShardSize, ShardFileSize),
-- Erasure/Coder EncodeData and DecodeDataBlocks, Erasure/Encode the multiWriter and Encode,
-- Erasure/Decode Decode, and Erasure/Reader the parallelReader as interleaved steps of its loop and
-- of its goroutines. github.com/klauspost/reedsolomon is a parameter (`Coder`) with the laws of its
-- documentation (`IsCode`); Erasure/Mirror is an instance of them. Encode runs on one round of fuel
-- for each byte and one more, which is enough because every round but the last takes a byte.
--
-- Object (cmd/erasure-object.go): Object/Placement has hashOrder and shuffleDisks, Object/Meta the
-- metadata and readMeta, Object/Put PutObject and writePart, Object/Commit commitMeta and
-- DeleteObject, Object/Get GetObjectInfo, GetObjectNInfo and the opening of the shard readers,
-- Object/Parts decodeObject and objectPartRange (cmd/api-handlers.go), Object/Range GetOffsetLength
-- and parseRangeSpec (cmd/httprange.go, cmd/api-handlers.go). A drive's state is any type with the
-- operations of `storage.API` (internal/storage/api.go); Object/Memory is such a drive.
--
-- Multipart (cmd/erasure-object.go): Multipart.antt has the uploads in parts, whose files are JSON
-- that a parameter prints and parses; it writes shards as Object/Put does and commits by
-- Object/Commit. Multipart/Files is about what is read back, Multipart/Complete and
-- Multipart/Undone about the completion; Multipart/Memory is a drive with the files of an upload.
--
-- Buckets (cmd/erasure-object.go, ListBuckets also of cmd/erasure-sets.go): Buckets.antt has the
-- operations on buckets and the merge of the drives' lists. Lock (contextMutex of
-- cmd/erasure-object.go): the mutex of a bucket or an object as steps of any number of goroutines.
--
-- Writer (internal/storage/buffered-writer.go): the queue between Write and the goroutine that
-- writes to the drive, as interleaved steps of both. Hash (internal/hash/reader.go): the reader
-- that limits an upload to its size and checks the size and the MD5 sum; a source is any type with
-- a Read.
--
-- Rest (cmd/storage-rest-common.go, storage-rest-client.go and storage-rest-server.go): Rest/Auth
-- has the request signature, Rest/Client the client's operations, Rest/Server and Rest/Handler the
-- server's, and Rest/Refine and Rest/Shards relate the two. A request carries its values; query and
-- JSON encodings, strconv and HMAC are the standard library's.
--
-- Sets (cmd/erasure-sets.go): Sets.antt has the cut of the drives into sets, the set of an object
-- and the operations over the sets (the error of reedsolomon.New is a parameter), Sets/Listing
-- ListObjectsV2 and listObjectNames; the answers of the drives are arguments.
--
-- Signature (cmd/signature-v4.go, authMiddleware of cmd/api-handlers.go): the checks of signed
-- requests and presigned URLs, and PresignURL, with times in nanoseconds; Signature/Maps has the
-- maps of values and the texts, Signature/Names the constants.
--
-- Prelude: Tests are Boolean tests, Lists, Slices and Family lemmas on sequences, Text Go strings,
-- Int integers, Errors error values and results.
--
-- Lengths and offsets are natural numbers: they measure data that exist, far below 2^63.
--
-- Not modelled: the cluster configuration and the program's start, which is wiring; the S3 handlers
-- but for ranges, parts and authentication; the file-system calls of the local disk, whose effect
-- is the laws of a drive; contexts, but for the points where a loop asks for their error; logging;
-- the pools of buffers; the stripe of locks that a name hashes to.
pub mod Prelude
pub mod Erasure
pub mod Object
pub mod Rest
pub mod Sets
pub mod Lock
pub mod Writer
pub mod Buckets
pub mod Multipart
pub mod Hash
pub mod Signature
