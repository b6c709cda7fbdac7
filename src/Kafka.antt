-- ===== src/Kafka.antt =====
-- hw12_13_14_15_16_calendar/internal/kafka: the retries of retry.go, the topic of topic.go, and the
-- consumer and the producer. The client library of Kafka stands behind interfaces, whose answers
-- are data here.
pub mod Failure
pub mod Retry
pub mod Topic
pub mod Consumer
mod Tests
