-- ===== src/Event.antt =====
-- event/: signed events on a topic of the network, and the callbacks that take them.
pub mod Subscriptions
pub mod Manager
pub mod Delivery
pub mod Loop
