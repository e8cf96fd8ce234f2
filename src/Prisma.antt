-- ===== src/Prisma.antt =====
-- The database client (`@prisma/client` over PostgreSQL) as the services use it: a parameter, since
-- its code is not in the repository. A table holds rows under ids; the laws are the documented
-- behaviour of the calls. Ids are generated and only compared, so they are numbers.
mod Client
pub mod Memory
pub use Client.*
