-- ===== src/Lib.antt =====
-- A verification library for zeroskip, an embedded key-value database that keeps its data in
-- append-only files.
--
-- The program. A database is a directory of data files: one active file, which operations append
-- to, finalised files, which are full, and packed files, which are sorted and end with an index.
-- Each file is mapped into memory (src/mfile.c), starts with a header (src/zeroskip-header.c) and
-- goes on with records (src/zeroskip-file.c writes them, src/zeroskip-record.c reads them). The
-- operations of src/zeroskip.c write to the active file and put the same change in a tree in
-- memory; when a database is opened, the records of its files are read again and fill the tree.
--
-- The library.
--   Prelude: library names, Boolean tests on native numbers, lists, and Option as a monad.
--   Word: words of C with their wrap-around, on either byte order (include/libzeroskip/util.h).
--     Word/Bits has the arithmetic of | and &, Word/BigEndian and Word/Half the accessors of 64
--     and of 32 bits.
--   Buffer: memcpy into and out of a buffer; an access outside it is none.
--   Format: sizes, record types (src/zeroskip-priv.h), the encoders (Encode: zs_prepare_key_buf and
--     its two like) and the decoders (Decode: zs_read_key_rec and the rest). Images gives the bytes
--     of a record, Reads reads them, KeyRecord and ValRecord join short and long records, and
--     RoundTrip joins the two sides.
--   MFile: struct mfile with its mapping, and mfile_write, mfile_read, mfile_seek, mfile_truncate,
--     mfile_flush, mfile_size, crc32_begin and crc32_end. The errors of the system calls are an
--     argument (Os, Stat).
--   File: struct zsdb_file and the three writers of records. Writes and Commit have what they
--     append to a file.
--   Record: the switch on a record's type and the loop of zs_active_file_record_foreach and
--     zs_finalised_file_record_foreach. Log says what a well-written log is; Replay reads one;
--     Stuck is about a record that cannot be read.
--   Header: zs_header_write and zs_header_validate.
--   Active: zsdb_add, zsdb_remove and zsdb_commit (src/zeroskip.c) and
--     zs_dotzsdb_update_index_and_offset (src/zeroskip-dotzsdb.c). Session has lists of calls,
--     Steps and Runs the single calls, Whole joins them with the reader, and Reopen with the tree.
--   Dotzsdb: the .zsdb file, zs_dotzsdb_create, zs_dotzsdb_validate, zs_dotzsdb_update_begin and
--     zs_dotzsdb_update_end (src/zeroskip-dotzsdb.c).
--   Vecu64: src/vecu64.c. Holds says what a vector holds, Inserts and Queries what
--     the operations make of that.
--   Search: memcmp_raw and the two binary searches, zs_packed_file_bsearch_index
--     (src/zeroskip-packed.c) and memtree_memcmp_raw (include/libzeroskip/memtree.h).
--   Memtree: the B-tree in memory (src/memtree.c): node_insert, node_split and the loop of
--     memtree_insert_at; Find has memtree_find, memtree_insert_opt and memtree_walk_forward, Load
--     the callbacks that fill a tree from a file. Lists, Inorder and Split are about nodes, Insert
--     about the way up, Sorted about the sorted list that a tree stands for, Locate and Reach about
--     the way down, and Lookup, Replace and Walk about the whole tree.
--     Cursor has the steps of an iterator; Settles, Ranges and Onward are about what it meets.
--   Fetch: zsdb_fetch (src/zeroskip.c) and zs_record_read_key_from_file_offset. Files is about the
--     packed files, Layers about the three layers, Ends about keys that were written, and Session
--     about what is fetched after a session.
--   Packed: packed files (src/zeroskip-packed.c): the writers of the records, the pointer section,
--     zs_packed_file_new_from_memtree from the records on, and zs_packed_file_open behind the check
--     of the header, for a file that is open. Write is about the pointer section as it is written,
--     Open as it is read; Packs and Pack are about the records of a tree, Whole joins the
--     three, and Kept is about what is fetched before and after.
--   Htable: src/htable.c, with the caller's entries as a parameter; Holds is about the buckets and
--     rehash, Put, Lookup and Remove about htable_put, htable_get and htable_remove.
--   Pqueue: src/pqueue.c; Order and Sink are about heaps as functions of the place, Put and Get
--     about the two operations.
--   Tests: concrete inputs.
--
-- The tree. A node's depth is the index of its type, so that all leaves have one depth; its parent
-- and its place there are not stored, but are the path that an iterator carries, and a node that has
-- changed is put back in the nodes above it. The search function is the default one.
--
-- Numbers and memory. Words are native numbers below 2 ^ 64, with % 2 ^ 64 where the source's sums
-- may wrap. Memory is a list of bytes and an access outside it gives none, so that a result some r
-- says that no such access happens. Malloc does not fail, as the program exits when it does. One read
-- that the program does may leave its block: where memtree_find misses a key it reads recs[pos] of the
-- leaf, and pos may be the place behind a full leaf. What an unused place of a leaf has, and what
-- stands behind a full leaf, or that reading there is a fault, is the parameter Slack. The theorems on
-- Lookup and Replace say when this fault happens; those on sessions, fetches and iterators have the
-- hypothesis IsReadable, that what is behind a full leaf can be read, whatever it is.
--
-- Fuel. The loop over a data file, the binary searches and the loops of pqueue_put and pqueue_get
-- take fuel, and give out_of_fuel when there is none left. A round of the loop over a file reads one
-- record, so that the number of records is enough; a round of a search halves the range, one of
-- pqueue_put halves the place and one of pqueue_get doubles it, so that the number of entries is.
-- get_offset_to_pointers calls itself for a long commit only, so that two rounds are enough. A round
-- of the loop of htable_init makes the size four times as large. The loop around write in
-- zs_dotzsdb_update_end takes the list of the answers of write, and is out of fuel where all of them
-- are EINTR.
--
-- Parameters. The checksum function of src/crc32c.c, a hardware instruction, is any function into
-- 32 bits. The callbacks are functions on the caller's data. In Active the tree in memory is a
-- parameter, with what memtree_replace makes of it (Reopen puts in that of Memtree), and so are the
-- reload of a database that another process has changed, the finalising of a full file and the two
-- steps of the update of the .zsdb file that touch it. What write answers for the .zsdb file is an
-- argument. In Packed the checksum of no bytes is 0.
--
-- Not modelled: opening, closing and renaming files, locks, removal from the tree, merging packed
-- files, the iterators over all files, strings, the log and the tools.
pub mod Prelude
pub mod Word
pub mod Buffer
pub mod Format
pub mod MFile
pub mod File
pub mod Record
pub mod Header
pub mod Active
pub mod Dotzsdb
pub mod Vecu64
pub mod Search
pub mod Memtree
pub mod Packed
pub mod Fetch
pub mod Htable
pub mod Pqueue
pub mod Tests
