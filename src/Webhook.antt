-- ===== src/Webhook.antt =====
-- internal/provider/webhook: the receiver of requests, and the checks of their signatures.
pub mod Receiver
pub mod Signature
pub mod Format
mod Tests
