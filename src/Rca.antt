-- ===== src/Rca.antt =====
-- internal/rca and internal/publisher: the events on the health of consumers, how they are found and
-- published, and how they are consumed.
pub mod Events
pub mod Publisher
pub mod Analyzer
pub mod Consumer
pub mod Delivery
pub mod Service
