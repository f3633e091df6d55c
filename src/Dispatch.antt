-- ===== src/Dispatch.antt =====
-- Sources/NPFoundation/dispatch: timers and schedules over libdispatch, which is not modelled: an
-- operation returns the calls that it makes.
pub mod Timer
pub mod Schedule
mod Examples
