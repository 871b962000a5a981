-- ===== src/Lib.antt =====
-- Torrent Builder: a command-line tool that creates, inspects, checks and modifies .torrent files.
-- The command line (src/torrent_builder.cpp) reads presets and tracker rules, builds the
-- configuration of a torrent, and gives it to the creator (src/torrent_creator.cpp). The creator takes
-- the piece size from the helpers of src/utils.cpp and lets the tracker rules (src/tracker_rules.cpp)
-- correct it. The rules are chosen by the domain of a tracker URL, which src/utils.cpp extracts. The
-- output file is named by the file name functions of src/utils.cpp. The checker
-- (src/torrent_checker.cpp) reads the pieces of a torrent back from the disk and compares their hashes.
--
-- What models what:
--   Common       numbers, Boolean tests, lists and byte strings, with the lemmas that all parts share
--   PieceSize    auto_piece_size, piece_size_for_target_count (src/utils.cpp), the allowed piece sizes
--                (include/constants.hpp)
--   Text         to_lower, starts_with, join, split (src/utils.cpp), ends_with (src/updater.cpp), and the
--                searches of std::string
--   Domain       extract_domain (src/utils.cpp)
--   Filename     sanitize_filename_part, truncate_filename, resolve_collision, and in Filename.Output
--                generate_output_filename and generate_auto_output_path (src/utils.cpp)
--   InputPath    sanitize_path (src/utils.cpp)
--   Rules        format_bytes, the override order of parse_rule and TrackerRulesDatabase::enforce:
--                Rules.Fit has the search for a piece size below a limit on the torrent's size,
--                Rules.Enforce the whole function, Rules.Matching has find_matching_rule,
--                Rules.Loading find_rules_file and load
--   Escape       url_encode and escape_json (src/utils.cpp), with readers for their results
--   Filter       glob_to_regex, should_include_file and the built-in exclusions (src/utils.cpp)
--   Updater      src/updater.cpp, as built for Linux: Updater.Disk the files and the calls on them,
--                Updater.Swap perform_update and perform_rollback, Updater.Shell the commands,
--                Updater.Release what is read of a release
--   Url          is_valid_url (src/utils.cpp)
--   Yaml         what the loaders use of yaml-cpp and of the file system, as records of operations
--   Preset       src/preset.cpp: configuration layers, their merge, loading and resolving presets
--   Batch        src/batch.cpp: Batch.Parse the batch file, Batch.Config the configuration of a torrent,
--                Batch.Execute one job, Batch.Pool the worker threads, Batch.Run the run of all jobs
--   SeasonPack   src/season_pack.cpp: the patterns, SeasonPack.Analyze the analysis of a directory,
--                SeasonPack.Warning the messages
--   Modifier     src/torrent_modifier.cpp: Modifier.Trackers the operations on the trackers, Modifier.Apply
--                apply_modifications and modify
--   ContentSize  compute_content_size (src/utils.cpp)
--   Version      parse_version and compare_versions (src/utils.cpp)
--   Checker      src/torrent_checker.cpp: find_file_for_piece and read_piece_data; Checker.Verify has the
--                checks of the files and of the pieces, and TorrentChecker::check
-- The file beside a directory of the same name holds the definitions, the files inside it the proofs,
-- and Examples the runs at concrete inputs.
--
-- How the code is read: `int`, `size_t` and `int64_t` values are natural numbers. Where the code tests
-- a value for being positive, a negative one takes the branch of zero. Sums and products stay far below
-- 2^63 for sizes that a disk can hold, so no wrap-around is written. A string is the list of its bytes,
-- each below 256. `std::optional` is Option, an exception is the error of a Result. Log messages are
-- left out, while every message that is kept in a result is modelled byte by byte.
--
-- Loops: those over a list or a range of numbers are structural recursion. The binary search of
-- find_file_for_piece has as many rounds of fuel as there are files, which suffices since every round
-- makes the range shorter. Printing a number n has fuel
-- n + 1. resolve_collision has the 1000 rounds of its source.
--
-- The file system is a parameter: resolve_collision takes the test for an existing name, read_piece_data
-- takes a disk that maps a path to the file's contents. The checker caches open streams, and it sets the
-- position of a stream before each read, so the model opens the file each time. The walk over the content
-- path is the list of its entries, or the text of the exception that ended it. The layout of the files
-- in a torrent is a parameter too: libtorrent lays files out one after another.
--
-- The hash functions of libtorrent and what its torrent_info reports are records of functions that the
-- checker takes; nothing is assumed of the hash functions.
--
-- yaml-cpp is a parameter as well: the record Yaml has the lookup of a key, the conversions and the
-- loading of a file, each of which may fail with the text of an exception. Nothing is assumed of them.
--
-- The worker threads of a batch are a step relation. One step is one access to what the threads share:
-- the fetch_add on the counter, or the assignment of a result. A run is any sequence of steps of any
-- threads. What executing a job may result in is a relation that the run takes, or a function.
-- TorrentCreator::create_torrent is a parameter of a job, and the time that a job takes is left out.
--
-- The updater moves files by calls of which any may fail: each takes from a record what the system makes
-- of it, so a theorem about all records covers every combination of failures. The files carry their
-- history, for what holds at every moment. How the shell reads a command is defined in Updater.Words, for
-- plain bytes, blanks, single quotes and backslashes. nlohmann::json and the hash function are
-- parameters.
--
-- The dictionaries of libtorrent are a record of operations with the laws of a map, and the modifier takes
-- bdecode, bencode and the position of the info dictionary as functions on bytes.
--
-- The expressions of std::regex that season_pack.cpp uses are a data type with a matcher that tries the
-- alternatives in the order of ECMAScript and takes as much as possible first. The walk over a
-- directory is the list of its entries, each a regular file, another file, or one whose kind cannot be
-- read.
--
-- Not modelled: the calls of libtorrent, OpenSSL and the terminal, logging, progress output, the
-- inspector and the creator; of the modifier the files, the
-- info hashes and the printed difference; of the updater the request for
-- the latest release, the state file of the update check and the branches for Windows and macOS.
mod Common
pub mod PieceSize
pub mod Rules
pub mod Text
pub mod Domain
pub mod Checker
pub mod Filename
pub mod Yaml
pub mod Url
pub mod Preset
pub mod Batch
pub mod SeasonPack
pub mod ContentSize
pub mod Modifier
pub mod Updater
pub mod Version
pub mod Escape
pub mod Filter
pub mod InputPath
