-- ===== src/Live.antt =====
-- The app and the driver as processes of one system: `IOHandler` (driver/src/io_handler.cpp) and
-- the calls of the bridge that reach the segment (bridge/src/noise_bridge.cpp), each on the
-- buffers that it has opened, over the calls of POSIX. Whole calls run one after another.
pub mod Buffers
pub mod Driver
pub mod Guests
pub mod Keeps
pub mod Sims
pub mod Serves
pub mod Connects
pub mod Follows
pub mod Starts
pub mod App
pub mod System
pub mod Sound
pub mod Restart
pub mod Delivers
mod Tests
mod Trials
