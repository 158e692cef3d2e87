-- ===== src/Lib.antt =====
-- ferrosync: models and proofs for a file synchroniser that speaks the rsync protocol.
--
-- The program. A sender and a receiver talk over one byte stream. Integers are packed by
-- crates/ferrosync-protocol/src/varint.rs. Payloads travel in multiplexed frames of
-- crates/ferrosync-protocol/src/multiplex.rs, so that messages can stand between pieces of data. The
-- delta transfer of crates/ferrosync-delta describes a file against a basis: the generator sends
-- block signatures (sum.rs), the sender matches windows of its file against them by a rolling and a
-- strong checksum (checksum.rs, matcher.rs) and sends the operations (ops.rs) as tokens (token.rs).
-- The filter rules of crates/ferrosync-filter choose files by glob patterns (pattern.rs,
-- rule.rs).
-- Before all that the two sides agree on a version and algorithms (the handshake of
-- crates/ferrosync-protocol), and the sender sends the list of its files, each entry as its
-- difference from the one before (crates/ferrosync-codec).
--
-- The files.
-- Base: shared names; native naturals, lists, Boolean tests, two's complement integers, bytes.
-- Wire/Stream: a reader is a function from the bytes that are left to a result and the rest; a writer
--   is the list of bytes that it appends. ProtocolError has the cases that the modelled code makes.
-- Wire/Fixed, Varint, Varlong, Ndx: varint.rs, one function for each reader and writer, with the
--   steps after a computed value as functions of their own (read_varint_tail, pack_varlong).
-- Mux/Code, Frame: MsgCode, MplexReader::read_message, MplexWriter::write_message, write_data,
--   write_index. The UTF-8 decoder of the standard library is the parameter from_utf8_lossy.
-- Mux/Staging: parse_frames_from_staging on the staged bytes, with the queue of payloads.
-- Mux/Control: decode_control_message.
-- Delta/Rolling: checksum1 and RollingChecksum on wrapping 32-bit words.
-- Delta/Ops: BasisRef, DiffOp, apply_diffops. Delta/Sum: the signature formats of sum.rs.
-- Delta/Matcher: match_blocks. MatchState has the variables of its loop; the hash map is a function
--   from digests to candidate lists; the strong checksum is the parameter checksum2.
-- Delta/Context: ProtocolContext, ChecksumType, checksum2 and file_checksum. The hash libraries are the
--   record Hashes, with the digest lengths that they document.
-- Delta/Incremental: IncrementalChecksum over the record Hashers, whose hashers give the digest of all
--   the bytes that they took.
-- Delta/Signatures: compute_block_length, compute_s2length, compute_signatures, with floats written as
--   integers. Bounds, Total and Signs say what it makes, and where it panics.
-- Delta/Matcher/Streaming: StreamingMatcher. Matching has what does not change, StreamState the rest; a
--   call is process_chunk, in the steps fill, the scan of a chunk, and the end of the call. stream_all
--   is the calls in turn.
-- Delta/Token: the uncompressed tokens, with the plain writer for write_diffops.
-- Delta/Token/Compressed: CompressedTokenWriter and CompressedTokenReader. The compressors of
--   crates/ferrosync-protocol/src/compress.rs are the record Compressor: a state, its reset and a step
--   on bytes, with any behaviour. Runs, Flags, Matches and Pending follow a run of block matches.
-- Filter/Pattern: Pattern::new, compile, parse_char_class, matches, match_recursive. A position in a
--   pattern or a path is the list of the bytes from there on.
-- Filter/Rule: FilterRule::parse and FilterRuleList. A method gives the list after it and its result; a
--   file is the list of its lines or a failed read; str::trim is a parameter.
-- Codec: the file list of crates/ferrosync-codec. Format and Entry have the records (WireFormat,
--   FileListOptions, FileEntry, DeltaState); Flags, Fields and Hlink are the files of src/codec;
--   EntryCodec is encode_entry and decode_entry, with traverse_fields written out for each visitor;
--   Batch and IdList are the functions of exchange.rs; Chmod is chmod.rs. A hash map of hard links is
--   the list of its items, the last one first. A file of the list that the receiver keeps is its index.
-- Handshake: crates/ferrosync-protocol/src/handshake.rs. Text is the vstrings, Negotiate the choice of
--   an algorithm, Peers the two sides. A side reads from the bytes that are left and gives the protocol
--   and the bytes that it writes; lossy is the standard library's UTF-8 decoder.
-- Engine/Sender, Engine/Receiver: the file functions of crates/ferrosync-engine/src/generator.rs,
--   sender.rs and receiver.rs, with uncompressed tokens. Engine/Receiver/Run is the receiver's loop
--   token by token; ToWriter is the receiver that writes as it goes, with its own block arithmetic, the
--   hasher of Delta/Incremental and a writer as a parameter, which may fail; Engine/Transfer composes
--   signature, matcher, tokens and receiver.
-- Engine/Delete: DeleteBudget and Deleter of crates/ferrosync-engine/src/delete.rs, on the listing of a
--   directory; Plan says which entries are deleted.
-- Engine/Iflags, Goodbye: the item flags, the statistics and the end of a session, of
--   crates/ferrosync-protocol/src/wire_format.rs.
-- Runs: the theorems at concrete inputs, and test runs.
--
-- Bounds. Machine words are naturals with their wrapping written out, in a release build's
-- arithmetic; debug assertions are left out. Loops run on fuel: parse_loop on the number of staged
-- bytes, since a round takes 4 at least; match_loop on one more than the source's length, since a
-- round moves on by one byte at least; sign_loop and recv_loop likewise on
-- one more than the length of the file or the stream; stream_loop on one more than the
-- buffer's length, stream_all on one more than the source's, since a call that is not the last takes a
-- byte; compile on the pattern's length, since a segment takes one
-- byte at least; chunks on the length of the slice; recv_entries and read_ids on one more than the
-- bytes that are left, since an entry or a name takes one at least. Where fuel can run out the
-- result is an option, and the theorems give a result.
--
-- Not modelled: the asynchronous polling around the frame parser, what a control message prints,
-- the stateless wrappers of compressed tokens, the checksum that the streaming matcher feeds, content-defined chunks, the order of a file list, the list in increments, its ACLs,
-- extended attributes and converted file names, the decoder for diagnosis, the sessions of the
-- engine, and all access to files, sockets and processes.
pub mod Base
pub mod Wire
pub mod Mux
pub mod Delta
pub mod Filter
pub mod Codec
pub mod Handshake
pub mod Engine
pub mod Runs
