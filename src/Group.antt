-- ===== src/Group.antt =====
-- pkg/controller/group: the controller of groups of instances.
pub mod Text
pub mod Types
pub mod Scaled
pub mod Scaler
pub mod Rolling
pub mod Controller
mod Tests
