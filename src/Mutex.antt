-- ===== src/Mutex.antt =====
-- common/mymutex.c: mutexes shared by processes, with a table of who holds what and who waits.
pub mod Types
pub mod Deadlock
pub mod Order
pub mod Table
pub mod Lock
pub mod Unlock
pub mod Identity
pub mod Init
pub mod Frame
pub mod RoundTrip
pub mod Stage
pub mod System
pub mod Program
