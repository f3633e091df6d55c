-- ===== src/Objc.antt =====
-- Sources/NPFoundation/objc: helpers over the Objective-C runtime, which is a parameter.
pub mod Runtime
pub mod Observing
mod Sample
mod Examples
