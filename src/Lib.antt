-- ===== src/Lib.antt =====
-- KubeBrain serves the etcd API of Kubernetes on top of a key-value storage. This library models the
-- core of its backend, pkg/backend, and the storage engine in memory, pkg/storage/memkv.
--
-- How the parts work together. A write (Txn, pkg/backend/txn.go) is dealt a revision (Tso,
-- pkg/backend/tso/tso.go), and commits a batch of two keys to the storage engine: the object's
-- revision key, under a compare, and the object key of the new version (Coder, pkg/backend/coder). A
-- create goes through Creator (pkg/backend/creator/naive.go), which also replaces a deleted object.
-- Whatever the outcome, the write leaves an event in a slot by its revision. The sequencer
-- (Sequencer: notify of pkg/backend/txn.go, collectStorageWriteEvents of pkg/backend/backend.go)
-- takes the slots in the order of revisions, publishes each revision, adds valid events to the watch
-- cache (WatchCache, pkg/backend/ring.go) and sends them to the watchers in batches; an uncertain
-- event goes to the retry queue (RetryQueue, pkg/backend/retry/queue.go), and Retry
-- (pkg/backend/retry/retry.go) settles it by writing the latest value again. A watch (Watch,
-- pkg/backend/watch.go) starts from the cache and goes on with the broadcast of the hub (WatcherHub,
-- pkg/backend/watcherhub.go). Range (pkg/backend/range.go) reads one key at a revision, and pages of
-- ranges (Range/Page and Range/Lists). Scanner (pkg/backend/scanner) reads ranges at a revision,
-- partition by partition, and removes what a compaction may remove. Compact (pkg/backend/compact.go,
-- and PrefixEnd of pkg/backend/util.go) bounds and records compactions. Etcd (pkg/server/etcd) takes
-- the requests of etcd's API to the backend and its answers and events back. Election
-- (pkg/backend/election) is the lock by which one server becomes the leader.
--
-- The files. Storage is the interface of the engines, pkg/storage/interface.go and errors.go, as a
-- record of operations over an abstract state; Storage/Contents states what an engine promises of
-- the map from keys to values that it stands for, and the theorems on Creator, Txn, Retry and
-- Compact take those laws as an argument. MemKv implements the interface over the operations of a
-- skip list, which is a third party's and so a parameter with its laws (MemKv/SortedList shows that
-- they can hold); MemKv/Engine fills the laws of Storage/Contents. Scanner/Receiver is receiver.go,
-- Scanner/Worker the worker of scanner.go and Scanner/Partitions the rest of it; Scanner/Visible
-- says what a read should see, Scanner/Reads, Ranges and Joined are on reads, Scanner/Compaction is
-- on compactions, and Scanner/Borders on the borders of partitions. Etcd/Kv is kv.go, Etcd/Shim is
-- backendshim.go over an interface of the backend that Etcd/Node fills, and Etcd/Watcher is
-- watch.go; the other servers are an interface (Peers), and Etcd/Message has the fields that are
-- used of etcd's messages. Election is the lock of pkg/backend/election, over the encoding of its
-- record as an argument. Message has the fields that the code uses of the generated API messages.
-- Base has the shared names, lists, bytes and lemmas.
--
-- How the code is rendered. A method of Go is a function of the same name in snake case, from the
-- state to the state and its results; where the code is in one method, the helpers that follow it in
-- the file are its branches. Backend requests are named create_request, update_request,
-- delete_request and get_request, beside the internal create, update, delete and get. A panic of the
-- code is the value `none`, or `panic` of the decoder. A slice is a list of byte values, nil is
-- `none` where the code tells it apart, and a uint64 is a number whose wrap-around is written out
-- where the code can reach it. Errors are values of Storage.Error, with errors.Is as Boolean tests.
--
-- Bounds and fuel. The inner loop of the sequencer, which can run as long as valid and invalid
-- events come, runs on fuel; more fuel than there are pending events is enough if a valid event is
-- among those of the batch, and the theorem on a round has both as hypotheses. Without a valid event
-- the loop looks at the next slot again and again until another goroutine writes it; in the model,
-- where nothing is written during a round, it uses up its fuel. The other loops are structural.
-- The hypotheses on revisions keep the counters below 2 ^ 63, from where the slot index of the code
-- turns negative, and the pending events fewer than the 100000 slots. The limit of a list is an
-- int64, whose greatest value wraps when it is raised by one.
--
-- What is asked of an engine. Beside the laws of Storage/Contents, the theorem on compactions asks
-- that a removal by the key alone never answers that a compare failed, as the interface says. The
-- engine in memory meets that, the one on TiKV does not: it answers a write conflict so.
--
-- What is not modelled. A handler is one step from its revision to its event; the interleaving of
-- concurrent callers is modelled for the counters of Tso. Goroutines, channels and cancellation are
-- left out: a channel is the list of what is sent on it. Timers, logs and metrics are left out; the
-- lifetime of a key is kept as a pending timer. The workers of a scan run one after the other, and
-- compact on the engine that they read (an engine may have an exclusive one for compactions). The
-- engines on TiKV and Badger, and of the servers in front of the backend those in pkg/server/brain
-- and pkg/server/service are not part of the library yet, nor are the leases and the member list of
-- pkg/server/etcd and the loop that receives a client's messages; pkg/endpoint, pkg/metrics,
-- pkg/util and cmd are input and output only.
pub mod Base
pub mod Message
pub mod Coder
pub mod WatchCache
pub mod Tso
pub mod RetryQueue
pub mod Watch
pub mod Storage
pub mod MemKv
pub mod Sequencer
pub mod Creator
pub mod Range
pub mod Txn
pub mod Compact
pub mod Retry
pub mod WatcherHub
pub mod Scanner
pub mod Etcd
pub mod Election
