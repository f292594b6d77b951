-- ===== src/Ordered.antt =====
-- src/roo_wifi/hal/ordered_interface.h and ordered_interface.cpp: the adapter that orders the
-- events of a native station and finishes the operations of the controller.
pub mod Events
pub mod Station
pub mod Queue
pub mod Machine
pub mod Commands
pub mod Tally
pub mod Runs
pub mod Fifo
pub mod Turns
pub mod Reports
