-- ===== src/Mqtt.antt =====
-- internal/mqtt/service.go: the client and its health, the topics, the publishing, and the commands.
pub mod Types
pub mod Topics
pub mod Client
pub mod Publish
pub mod PublishLaws
pub mod Provider
pub mod StormTopics
pub mod Commands
pub mod CommandLaws
pub mod RouteLaws
mod Tests
