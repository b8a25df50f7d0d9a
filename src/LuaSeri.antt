-- ===== src/LuaSeri.antt =====
-- rednet-src/lua/uluaseri.h and uluaseri.cc: Lua values packed into a byte stream and read back.
pub mod Word
pub mod Value
pub mod Block
pub mod Pack
pub mod Unpack
pub mod Tests
