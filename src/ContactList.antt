-- ===== src/ContactList.antt =====
-- The contact list (src/contact-list.c).
pub mod State
pub mod Groups
pub mod Publish
pub mod Roster
