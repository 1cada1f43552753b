-- ===== src/Consumer.antt =====
-- src/package/consumer and src/common/kafka_consumer_imp.cpp: what is read from Kafka, handed out and
-- committed.
pub mod Partition
pub mod Process
