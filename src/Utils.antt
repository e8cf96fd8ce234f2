-- ===== src/Utils.antt =====
-- src/utils, and the calendar of the server that the services read dates with.
pub mod Calendar
pub mod Date
pub mod Email
