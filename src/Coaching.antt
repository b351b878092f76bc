-- ===== src/Coaching.antt =====
-- Coaching conversations: backend/app/domain/coaching/service.py and domain/models.py.
pub mod Conversation
pub mod Turns
mod Examples
