-- ===== src/Fat.antt =====
-- The FAT12 file system, kernel/fat.c, over the sectors that kernel/ata.c reads and writes. A
-- sector is a function from the offset to a byte. `secbuf` is filled before every use, so it is
-- a local value here. Bytes are below 256, so the `|` of the source, whose fields do not meet, is
-- written as a sum, and its masks and shifts as `%`, `/` and `*`.
pub mod Disk
pub mod Table
pub mod Codec
pub mod Bytes
pub mod Entry
pub mod Chain
pub mod Take
pub mod Name
pub mod Dir
pub mod File
pub mod Read
pub mod Total
pub mod Grow
pub mod Extend
pub mod Onto
pub mod Link
pub mod Store
pub mod Frame
pub mod Stream
pub mod Payload
pub mod Service
pub mod Search
mod Runs
mod Tests
