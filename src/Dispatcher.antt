-- ===== src/Dispatcher.antt =====
-- container_service_extension/server/request_dispatcher.py, from the table of the urls to the call
-- of a handler: a child for each part.
pub mod Operations
pub mod Entries
pub mod Table
pub mod Header
pub mod Routing
pub mod Process
mod Tests
