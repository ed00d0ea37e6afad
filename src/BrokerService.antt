-- ===== src/BrokerService.antt =====
-- BrokerService/BrokerService.cpp.
pub mod State
pub mod Replies
pub mod Sessions
pub mod Ceremony
pub mod Authentication
pub mod Management
pub mod Handle
