-- ===== src/Lib.antt =====
-- A verification library for the LevelDB sources that the study folders of this repository hold.
--
-- The program. leveldb学习 holds one folder for each part of the storage engine: log (the
-- write-ahead log), manifest (the record of the set of table files), memtable, sstable, filter and
-- cache, and 初始化 (the internal keys and the database object). leveldb学习/project is a small
-- library of the repository's own that has the encodings, the comparator and the slice which those
-- folders include by the names util/coding.h, leveldb/comparator.h and leveldb/slice.h. A write goes
-- to the log and then to the memtable under an internal key; a full memtable becomes a table file,
-- with index keys that the comparator shortened and a filter; the manifest lists the files as
-- version edits, which are records of a log themselves.
--
-- The files.
--   Prelude: shared names, tests, lists, and the bit operations at variables.
--   Coding: leveldb学习/project/leveldb/leveldb/util/coding.cpp and coding.h. A byte string is a list
--     of numbers; `encode_varint32`, `get_varint32` and the rest are the functions of these names.
--   Comparator: include/comparator.h (the interface), util/comparator.cpp and Slice::compare of
--     include/slice.h, in the same folder.
--   DbFormat: leveldb学习/初始化/dbformat.c and dbformat.h. `internal_compare` is
--     InternalKeyComparator::Compare, `lookup_key` the constructor of LookupKey.
--   VersionEdit: leveldb学习/manifest/version_edit.c and version_edit.h; `encode_to` and
--     `decode_from` are EncodeTo and DecodeFrom, the latter with the object it is called on.
--   Log: leveldb学习/log. Log/Writer is log_writer.c (`add_record` is AddRecord), Log/Reader is
--     log_reader.c (`read_record` is ReadRecord, `read_physical_record` ReadPhysicalRecord).
--   Bloom: leveldb学习/filter/bloom.c over util/hash.cpp of leveldb学习/project/leveldb/leveldb, with
--     the bits of a number in Bloom/Bit, those of an array in Bloom/Marks and lookups in
--     Bloom/NoFalseNegative.
--   Format: leveldb学习/sstable/format.c and format.h, the handles and the footer
--     (Format/RoundTrip) and ReadBlock (Format/Block). The file, the checksum and Snappy are
--     parameters.
--   FilterBlock: leveldb学习/sstable/filter_block.c and filter_block.h. FilterBlock/Builder relates
--     the builder's flat strings and offsets to the groups of keys that they stand for, over the
--     cut strings of FilterBlock/Flat; FilterBlock/Reading is about what the reader finds, over the
--     array of offsets in FilterBlock/Words. The policy is a parameter.
--   FileSet: the parts of leveldb学习/manifest/version_set.c that search the files of a level:
--     FindFile (FileSet/Search), the overlap tests (FileSet/Overlap), the iterator over a level and SaveValue
--     (FileSet/Values).
--   BlockBuilder: leveldb学习/sstable/block_builder.c and block_builder.h; Block: block.c beside
--     them. Block/Decode and Block/Parse are about the reading of one entry that the builder wrote,
--     Block/Walk about a whole block, and Block/Found about blocks of any bytes.
--   DbIter: leveldb学习/初始化/db_iter.c, the iterator of the user over the internal entries. DbIter/View
--     and DbIter/Newest say what a user sees of them, DbIter/Round is about FindNextUserEntry and DbIter/Forward about
--     walks forward. The internal iterator is a parameter.
--   VersionBuilder: VersionSet::Builder of leveldb学习/manifest/version_set.c, what Apply makes of the
--     levels (VersionBuilder/Applied and VersionBuilder/Added) and the files that SaveTo gives (VersionBuilder/Saved).
--   Version: Version::Get, ForEachOverlapping, UpdateStats and RecordReadSample of the same file, the
--     first two related in Version/Lookup. The table cache is a parameter.
--   Inputs: GetOverlappingInputs (Inputs/Widening for one pass, Inputs/Range for the order
--     of ranges, Inputs/Closure for the whole loop) and PickLevelForMemTableOutput (Inputs/Placing) of
--     the same file.
--   Compaction: the choice of compactions of the same file (AddBoundaryInputs in Compaction/Boundary, Compaction/Least and Compaction/Apart),
--     and in Compaction/Running class Compaction (IsBaseLevelForKey in Compaction/BaseLevel).
--
-- Bounds and fuel. uint32_t and uint64_t keep their wrap-around (`% 2 ^ 32`, `% 2 ^ 64`). The loop
-- of EncodeVarint64 has nine rounds of fuel, enough for a uint64; DecodeFrom has a round for each
-- byte of its input and one more; AddRecord two rounds more than the record has bytes; ReadRecord
-- takes its fuel from the caller. Out of fuel these return `none`. StartBlock has a round for each
-- filter up to its block, and FindFile one for each file, since every round shrinks its interval.
-- Loops over the entries of a block have a round for each byte of it, and the loops of DBIter take
-- their fuel from the caller. GetOverlappingInputs has a pass for each end of each file and one more,
-- since a file widens the range at most once at each end; AddBoundaryInputs has a round for each file
-- of the level and one more, since a file is added at most once.
--
-- Not modelled. leveldb学习/leveldb is a copy of the upstream project with its third-party
-- libraries. Checksums (util/crc32c.h), files (leveldb/env.h) and user comparators and filter
-- policies are parameters with their documented behaviour as hypotheses. Printing for people
-- (DebugString) and benchmarks are left out, and so are the memtable, the cache, the life of a
-- version set (LogAndApply, Recover, Finalize, the iterators it assembles) and the database object
-- with its threads. The Go, Qt and STL folders are other programs.
pub mod Prelude
pub mod Coding
pub mod Compaction
pub mod Comparator
pub mod DbFormat
pub mod Version
pub mod VersionBuilder
pub mod VersionEdit
pub mod Inputs
pub mod Log
pub mod Bloom
pub mod FileSet
pub mod Format
pub mod DbIter
pub mod BlockBuilder
pub mod Block
pub mod FilterBlock
