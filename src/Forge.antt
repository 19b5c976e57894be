-- ===== src/Forge.antt =====
-- The controller's webhook: a forge posts a push, and the volumes that follow it are marked. `Url`
-- and `Match` are match.go, `Payload` is payload.go, `Verify` is verify.go, `Webhook` is webhook.go.
pub mod Url
pub mod Match
pub mod Payload
pub mod Verify
pub mod Webhook
