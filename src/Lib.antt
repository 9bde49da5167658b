-- ===== src/Lib.antt =====
-- FyroDB, a key-value store that speaks the protocol of Redis: the bytes that a connection reads
-- become a command (utils/parser.rs), a command acts on the store (storage/), whose map from keys
-- to values is the crate customhash, and the reply is written to the output (utils/resp.rs,
-- utils/resp3.rs) or, for a published message, sent as a frame (pubsub/frame.rs).
--
-- Util is src/utils/util.rs: the glob matcher `glob_match_bytes` with its backtracking to the last
-- star; Util.Glob says what a match is, Util.Decides proves the loop, Util.Correct holds the
-- results.
--
-- Resp is src/utils/resp.rs: each writer takes the buffer and returns it. Resp.Number has the two
-- digit loops, Resp.Number.Decimal the decimal text, Resp.Replies the plain formats. Resp.Resp3 is
-- src/utils/resp3.rs. Pubsub.Frame is src/pubsub/frame.rs.
--
-- Pubsub.Slot is src/pubsub/slot.rs: the notifier of a worker as a step relation, in which each
-- access to the queue, to the flag and to the waker is one step of a publisher or of the worker;
-- and the mailbox of a subscriber. Pubsub.Registry is src/pubsub/registry.rs: the channels' shards,
-- the index of patterns and `publish`, which returns its pushes. The hash of a channel is the
-- parameter `hash_one`.
--
-- Parser is src/utils/parser.rs: the state `RespParser` is its buffer, fill level and position, and
-- the parts of a command, whose raw pointers are offsets into the buffer. A slice whose start lies
-- behind its end is the outcome `panic`. The crate memchr is the parameter `Memchr`: the first
-- index of a byte.
--
-- Map is crates/customhash/src/lib.rs with the lookups of shard.rs: the entries of all shards in
-- one list, and the atomic count of keys. An entry stays when its key is removed, as in the source.
-- The map is what one caller sees: locks, sequence numbers, reclamation and the growth of a shard
-- are left out, so that a closure that runs under a key's lock is a function on the value.
--
-- Value is src/storage/value/mod.rs and collections.rs: the variants of a value, its expiry, and
-- the clock, of which the cached and the exact time are both in the record `Clock`.
-- Value.Collections.Hash has the compact and the full form of a hash, Value.Collections.Set the
-- three forms of a set. Value.SortedSet is zset_data.rs: the entries in order and the Bloom filter,
-- in which the test `& (bits - 1)` is the rest by the number of bits, a power of two;
-- Value.SortedSet.Ranges has the methods on ranges, where a slice that panics is `none`.
-- Value.Float is an f64 as its bits. The payloads of sorted sets and streams are parameters of a
-- value; Store.SortedSets takes `ZSetData` for the first.
--
-- Store is src/storage/store.rs. Store.Keys is src/storage/keys.rs without `randomkey`; Store.Ttl
-- says what the count of keys with an expiry covers. Store.Lists is src/storage/list.rs:
-- Store.Lists.Deque has the loops over a deque, Store.Lists.Edit the commands that edit a list,
-- Store.Lists.Refine the functions on lists that the commands refine. A key that is missing or
-- expired stands for the empty list. Store.Update has the pattern of a command on one key, and
-- Store.Update.Refine says once what such a command does to the value that a key stands for.
-- Store.Bitmaps is src/storage/bitmap.rs, Store.Hashes src/storage/hash.rs. Store.Sets is
-- src/storage/set.rs, Store.Sets.Combine its commands on several keys. Store.SortedSets is
-- src/storage/zset.rs, Store.SortedSets.Combine its commands on several keys. Store.Strings is the
-- part of src/storage/string.rs on whole strings, Store.Strings.Counters its counters on integers;
-- these commands are steps of Store.Ttl.Steps too.
--
-- Commends is src/commends/, of which Commends.Sets is set.rs: the handlers of the set commands,
-- which take the parts of a command apart, act on the store and write the reply. Commends has the
-- macros of macros/cmd.rs, whose early returns are functions of what follows; Commends.Replies says
-- what a whole reply is.
--
-- Numbers are the native naturals. A sum or a count of the source that can wrap has its `% 2 ^ 64`
-- written out; lengths of buffers and lists are not reduced, and the theorem that depends on it
-- says so. The fuel of the glob loop is (length of the text + 1) * (length of the pattern + 1),
-- which is shown to be enough. The parser's loops are structural.
--
-- Not modelled: sockets, threads and timers (main.rs, worker.rs, handler/), the other handlers of
-- commands (commends/), the concurrency of the map (ebr.rs, ops.rs), the other data types of
-- storage/, floating point, and the allocator.
pub mod Base
pub mod Commends
pub mod Map
pub mod Parser
pub mod Pubsub
pub mod Resp
pub mod Store
pub mod Util
pub mod Value
