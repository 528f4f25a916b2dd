-- ===== src/Json.antt =====
-- JSON values: libsofadb/native_json.h and native_json.cpp.
pub mod Value
pub mod Access
pub mod Cell
pub mod Containers
pub mod Bignum
pub mod Compare
pub mod Plain
pub mod Events
pub mod Reading
pub mod Text
pub mod Input
