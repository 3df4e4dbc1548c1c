-- ===== src/Fsm.antt =====
-- pkg/fsm: the finite state machines of the controllers.
pub mod Types
pub mod Spec
pub mod Flap
pub mod Fifo
pub mod Queue
pub mod Set
