-- ===== src/Wire.antt =====
-- internal/providers/local/runner_protocol.go: the binary protocol spoken with a runner process over
-- its standard input and output. Little-endian bytes and UTF-8 (of Go's standard library), the
-- Generate message and its envelope, the frames that come back, and their stream.
pub mod Bytes
pub mod Utf8
pub mod Text
pub mod Generate
pub mod Writer
pub mod Frame
pub mod Stream
