-- ===== src/Lib.antt =====
-- mpxcast receives FM broadcasts with an RTL-SDR device, decodes the stereo sound and the RDS data
-- of a station, and serves both over HTTP: sound as WAV or as an MPEG transport stream, the
-- radiotext as ICY metadata between the bytes of the sound. This library models the parts that
-- decide what is decoded and what is sent.
--
-- How the parts interact. The demodulator hands bits with a confidence to the block stream
-- (src/rds/block_sync.c), which finds the block boundaries, corrects errors and hands over groups of four
-- blocks. The parser (src/rds/parser.c) takes a group and updates the station information. The stream session
-- gives the radiotext to the metadata (src/stream/icy.c) and the samples to a mux
-- (src/stream/mux_mpegts.c, src/stream/mux_wav.c), and wraps what the mux wrote. The server
-- (src/stream/server.c) parses a request (src/stream/http.c), starts a session for a station, and keeps
-- the samples of the session as chunks of which each client reads its own way, with its own metadata
-- and mux.
--
-- Files and code:
--   Prelude, Bits      shared helpers: Boolean tests, lists, words, and the laws of ^, | and &
--   Float              what the code does with a `float`; Float/Whole has numbers to run it
--   CString            <string.h> on NUL-terminated arrays
--   BlockSync          src/rds/block_sync.c and .h. Code: offsets, `rds_calculate_syndrome`,
--                      with Code/Encoder, a sender to compare with;
--                      Correction: `rds_correct_burst_errors`, `rds_correct_soft_errors`; Stream: `struct
--                      rds_block_stream_state`, the window of errors and the pulses; Stream/Receive:
--                      acquisition, `rds_find_block_in_register`, the operations of the header
--   Parser             src/rds/parser.c, parser.h, model.c, model.h. Update: name and radiotext;
--                      Complete: the test of completeness; Process: `rds_parser_process_group`
--   Icy                src/stream/icy.c and .h; Icy/Client has a client that takes the stream apart
--   MpegTs             src/stream/mux_mpegts.c and .h. Crc, Tables, Pes: the parts of the packets;
--                      Mux: `stream_mux_mpegts_write_audio` and the prelude
--   Wav                src/audio/wav.c, wav.h, src/stream/mux_wav.c
--   Http               src/stream/http.c and .h: `stream_http_parse_request`; Numbers: the frequency,
--                      with `strtoul`; Request: the path, the parameters and the name
--   Printer            src/rds/printer.c: the line that `rds_printer_print_event` logs
--   Session            src/stream/session.c and .h: a tuned station. Titles: what holds of its titles;
--                      Packing: the bytes that a block of samples becomes
--   Server             src/stream/server.c: chunks, clients and the functions under the lock; Request:
--                      `handle_request`; Reader: `stream_content_reader`, `stream_content_free`;
--                      Queue: the chunks as a queue for each client; Reach: all orders of steps; Live:
--                      the same where readers have memory and room
--   App                src/core/app.c: `parse_cli_options`
-- The other modules below these have the proofs; each module Runs has tests and the theorems at
-- concrete inputs.
--
-- Conventions. A function on `*state` takes the state and returns it. Numbers are natural numbers;
-- a cast or an operation that can wrap has its `% 2 ^ w` written out. Sizes of objects in memory and
-- sums of them do not reach 2 ^ 64 and are plain numbers. A `char` is its code, an array is the
-- list of all its places. A buffer that a function only fills is the list of what it wrote. A
-- function that returns -1 or false returns `none`, with the state where it can have changed.
-- Floats are a parameter with its operations, of which no law is assumed, unless a theorem names it.
-- The signal processing, the clock, the tuner, `calloc` and what `getopt_long` reads are parameters.
-- A pointer to a chunk or a client is its address; an address is never used again. What the server
-- does under one hold of its lock is one step.
--
-- Loops over arrays and bits are structural or count down the rounds that are left. Three loops
-- have fuel: `icy_metadata_wrap` gets one round more than the body has bytes, and
-- `stream_mux_mpegts_write_audio` one more than the PES packet has; each round takes a byte, so
-- both end. `server_make_chunk_room` gets one round more than there are clients; each round but the
-- last drops a client. The theorems on them state that the rounds are enough.
--
-- Not modelled: the signal processing in src/dsp, which is numerical float code around liquid-dsp;
-- the input of samples in src/input, which is device I/O and threads; of the server the sockets,
-- signals, response headers and the cover, which are calls of the system and of libmicrohttpd; of the
-- command line the messages; logging; src/clog.h, which is another project's library.
pub mod Prelude
pub mod Bits
pub mod Float
pub mod CString
pub mod BlockSync
pub mod Parser
pub mod Printer
pub mod Session
pub mod Server
pub mod App
pub mod Icy
pub mod MpegTs
pub mod Wav
pub mod Http
