-- ===== src/Text.antt =====
-- The texts that the program writes and reads byte by byte: hexadecimal digests and event ids
-- (go/event.go, go/apply.go), and JSON strings (go/value.go). A text is the list of its bytes;
-- what the source ranges over by runes is the list of its code points, of which it writes the bytes.
pub mod Hex
pub mod Json
pub mod Uuid
