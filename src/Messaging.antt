-- ===== src/Messaging.antt =====
-- The message bus: the envelope of shared/messaging/schema.py, and the client of
-- shared/messaging/nats_client.py on a world that holds one agent's fields and its connection.
pub mod Message
pub mod Client
pub mod Wire
pub mod Subjects
pub mod Keeps
pub mod Healthy
pub mod Delivery
pub mod Frame
pub mod Sends
