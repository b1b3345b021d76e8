-- ===== src/Bridge.antt =====
-- davinci/caspar_bridge.py: the client of the docker-host bridge gateway and its wire protocol.
pub mod Bytes
pub mod Packing
pub mod Table
pub mod Stream
pub mod Messages
pub mod Wire
pub mod Calls
pub mod Waiting
pub mod Flow
pub mod Reassembly
pub mod Frames
pub mod RoundTrip
mod Samples
