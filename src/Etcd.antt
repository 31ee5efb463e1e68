-- ===== src/Etcd.antt =====
-- pkg/server/etcd: the API of etcd in front of the backend. Message has the fields of etcd's messages
-- that are used, Shim the translation of requests and answers, Kv the choice of the request, Watcher
-- the streams of watches.
pub mod Message
pub mod Shim
pub mod Kv
pub mod Node
pub mod Watcher
pub mod Delivery
mod Tests
pub mod Answers
