-- ===== src/Utils.antt =====
-- The headers of the library that no other file includes now: libsofadb/binary_stream.hpp and
-- vector_map.h.
pub mod VectorMap
pub mod BinaryStream
