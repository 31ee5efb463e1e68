-- ===== src/Message.antt =====
-- The messages of the client's API that the backend builds: the fields that the code sets and reads
-- (the generated code is not part of the repository).
use kubebrain.Base.{ℕ}
use kubebrain.Base.Bytes.{Bytes}

-- Event_CREATE, Event_PUT, Event_DELETE
pub data Verb : Type 0 where
  create put delete : Verb

pub record KeyValue : Type 0 where
  pub key : Bytes
  pub value : Bytes
  pub revision : ℕ

pub record Event : Type 0 where
  pub verb : Verb
  pub revision : ℕ
  pub kv : KeyValue
