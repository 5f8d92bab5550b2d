-- ===== src/Lib.antt =====
-- StarBase keeps a queryable index of an archive of astronomical images: a scanner feeds header
-- readers, a resolver turns headers into frames, a database stores them, and queries over it are
-- handed to actions such as PixInsight's WBPP. This library models the parts of the daemon that hold
-- its own logic and proves what makes them correct.
--
-- Names.Canon is src/names/canon.cpp: `tidy`, `catalog_number`, the rules and the Messier
-- cross-reference, `canonicalize` and `designations`, each loop a function over its variables. A map
-- that the code builds from the cross-reference is looked up by its last entry for a key.
-- Names.Sesame is src/names/sesame.cpp, with the HTTP client as a function from paths to responses.
-- Scan.BoundedQueue is src/scan/bounded_queue.hpp. A call holds the mutex, so it is one step; a call
-- whose wait condition fails is `blocked` and changes nothing. `Run` is any sequence of steps, so it
-- covers every interleaving of the producer and the workers. Item types are arbitrary. Waiting adds the
-- condition variables: sleepers, notifications that are carried out later, and waking by itself.
-- Pix.Wbpp is src/pix/wbpp.cpp: `render` and its parts, the command line and the launcher script.
-- Pix.Wbpp.Shell is how a POSIX shell reads words, and Pix.Wbpp.Params how WBPP splits its argument.
-- Query is src/query/query.cpp. Query.Json are the JSON values and accessors that it uses,
-- Query.Columns the promoted columns and literals, Query.Predicate the leaves of a filter,
-- Query.Filter the recursion, `filter_fields` and `compile_sort`. Query uses `designations` of
-- Names.Canon for object searches, as the code does. Query.Sql is how MySQL reads quotes,
-- parentheses and the starts of comments.
-- Auth.Password is src/auth/password.cpp, with PBKDF2 and the random source as the parameter `Crypto`.
-- Fs.Mounts is src/util/fsinfo.cpp: the mount table's lines and escapes, the choice of the mount, the
-- network file systems and the probe for case. The table's text, the resolved path and the directory
-- are arguments.
-- Sys are the calls of the database server and of the file system, and programs over them as a tree of
-- calls and answers: a theorem about a program speaks of every answer to every call, and a program is
-- finite, so each run ends. Db.Database is src/db/database.cpp over the replies of the connector.
-- Action.Engine is src/action/action.cpp: names, jobs, staging and file operations, the resolution of
-- frames (over the query compiler, as in the code) and the export. The counts of a job are natural numbers,
-- for `int` in the code, so a job is taken to have fewer than 2 ^ 31 frames. `create_job`, `record_item` and
-- `finish_job` go through Db.Database.
-- Index.Equipment is src/index/equipment.cpp: the registry and the resolver with its caches.
-- Daemon.Config is src/daemon/config.cpp: the defaults, the lines of the file, every section's keys and
-- the checks behind the loop. An exception is a value of `Result`.
-- Fits.Header is what src/fits/fits_reader.cpp does around CFITSIO: cards, values, the fingerprint's text.
-- Extract is src/extract: Mapping the tables and `normalize_value`, Defaults the built-in tables, Coord
-- numbers and coordinates, Night `night_of`, Resolver `resolve`. `std::lround`, regular expressions, `%lf`
-- and the calendar of the C library are the parameter `Library`; `Night.Noon.IsCalendar` states what is
-- relied on, for the dates from 1970-01-01 to 9999-12-31. A coordinate that makes `std::stod` throw makes `resolve` `none`.
-- Index.Mapping is src/index/mapping_loader.cpp, over the rows of its two queries.
-- Index.FrameStore is src/index/frame_store.cpp: the statements of a file, its frames and their cards;
-- Transaction runs them as `store_file` does without a resolver of equipment, with ten attempts.
-- Match.Calibration is src/match/calibration.cpp: the fields of a rule and their conditions, FlatSets
-- `resolve_flat_set`, Rules `match_calibration`, over the calls of the database. Action.Engine, Index and
-- Match reach the server only through Db.Database.Statements.
-- Common holds text as lists of bytes, the `<cctype>` tests of the "C" locale, decimal printing and
-- shared lemmas.
--
-- Recursion is structural everywhere but in decimal printing, where the fuel is one more than the
-- number, and a number has no more digits than that. Doubles, the numbers of the JSON library and
-- `mysql_real_escape_string` are a parameter, `Query.Platform`; `IsSound` states what is relied on.
-- The members of a JSON object have distinct keys.
--
-- Not modelled: the HTTP server, TLS, the command line client, logging and process start-up are glue
-- over libraries; the reading of FITS files by CFITSIO, the XISF reader and
-- the scanner's walk are not part of this library.
pub mod Auth
pub mod Common
pub mod Names
pub mod Scan
pub mod Pix
pub mod Query
pub mod Sys
pub mod Db
pub mod Action
pub mod Index
pub mod Daemon
pub mod Fs
pub mod Fits
pub mod Extract
pub mod Match
