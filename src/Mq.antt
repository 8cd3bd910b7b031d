-- ===== src/Mq.antt =====
-- mq/: messages as the records of a queue.
pub mod Convert
pub mod Kafka
mod Tests
use goactor.Prelude.{List, Option, ℤ, Str}
use goactor.Message.{Header}

pub record TopicPartition : Type 0 where
  pub topic : Str
  pub partition : ℤ

-- Message of mq/mq.go; the timestamp is in Unix nanoseconds.
pub record Record : Type 0 where
  pub place : TopicPartition
  pub open place use *
  pub offset : ℤ
  pub key : Str
  pub value : Option Str
  pub headers : List Header
  pub timestamp : ℤ
