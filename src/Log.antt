-- ===== src/Log.antt =====
-- leveldb学习/log: the write-ahead log, as blocks of 32 KB that hold physical records.
-- Log/Crc is the interface of util/crc32c.h, Log/Writer is log_writer.c, Log/Reader log_reader.c.
pub mod Crc
pub mod Writer
pub mod Reader
pub mod Tests
