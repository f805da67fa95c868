-- ===== src/Ui.antt =====
-- What the interface (client/src/ui) computes between the services and the widgets, and what the
-- widgets show.
pub mod Sort
pub mod Conversations
pub mod Populate
pub mod Archive
pub mod Account
pub mod Window
pub mod Sending
pub mod Messages
pub mod Downloading
pub mod Running
pub mod KeyWarning
pub mod Loading
pub mod Demo
pub mod Polling
pub mod Times
pub mod Drawing
