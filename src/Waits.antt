-- ===== src/Waits.antt =====
-- internal/dwaits and internal/waitmap: the waits of a server's requests, polled every second and written
-- to the server's ring every minute. The database, the clock, the log and the tickers are outside: what
-- they answer is given to the definitions.
pub mod Mapping
pub mod Box
pub mod Repository
pub mod Server
pub mod Groups
pub mod Top
mod Tests
