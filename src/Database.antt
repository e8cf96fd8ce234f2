-- ===== src/Database.antt =====
-- The state that the services share and their calls on it: an action changes the state and returns
-- or throws. `this.prisma` is the client `P`; a table of it is a field of `World`.
mod Actions
pub mod Calls
pub mod Laws
pub mod Frame
pub mod Ends
pub mod Atomic
pub mod Returns
pub use Actions.*
pub use Calls.*
