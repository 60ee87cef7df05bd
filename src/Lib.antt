-- ===== src/Lib.antt =====
-- Formal model of NightWatcher2, a daemon that polls Sky Quality Meters and weather stations, stores
-- their readings in a database and exports them to external networks. Paths are from the
-- repository's root.
--
-- The parts, and how they interact. A scheduler runs one worker for each sensor; a worker opens a
-- device by its stored address, sends it a command over a transport and parses the line that comes
-- back, and writes the reading and events to the database. An export worker waits until its target
-- is due, and a run pushes the readings behind the target's watermark to the exporter. The HTTP API
-- decides by token, session and role what a request may do, and reads and writes the same database
-- through statements whose texts are escaped; its users have hashed passwords.
--
--   Base            shared names, lists and texts, integers, exceptions as values
--   Text            trim and split of src/sqm/protocol.cpp (src/daemon/config.cpp and
--                   src/auth/password.cpp have the same), and the number conversions of the standard
--                   library that the sources call
--   Sqm.Protocol    src/sqm/protocol.cpp: the parsers of the device's lines
--   Sqm.Line        what both transports do with their receive buffer
--   Sqm.Tcp         src/sqm/tcp_transport.cpp
--   Sqm.Serial      src/sqm/serial_transport.cpp
--   Sqm.Device      src/sqm/transport.hpp, sqm_device.cpp, device_factory.cpp
--   Sqm.Simulator   tools/sqm-sim.cpp: the simulated device; Calibrated, Commands and Confirmed
--                   connect the device of Sqm.Device to it
--   Sqm.Discovery   src/sqm/discovery.cpp: the addresses of a network, the serial ports that are
--                   tried, and the pool of threads that probes them
--   Settings        src/daemon/config.hpp and config.cpp: what one setting of the configuration changes
--   Config          src/daemon/config.cpp: the configuration file
--   Db              the rows of src/db/database.hpp
--   Database        src/db/database.cpp. `Db` is the type of its methods: programs that send
--                   statements and go on with the server's answers. Columns builds upserts and
--                   updates, RowTypes and Rows read rows, Fields, Tables, Records, Readings and
--                   Accounts have the methods table by table, Dump and Schema the scripts, Calls all
--                   calls as one type. Lexer is how the server reads a statement, the reference for
--                   Safety, Fits, Composed, Queries, Issued, Inserts and Injection; Batches,
--                   Restore, Lines and RoundTrip are about dumps
--   Api             src/api/http_server.cpp: Json masks and merges settings, Access decides who may
--                   do what (SecretNames, Cookies and Carried are what their theorems refer to),
--                   Names has the tests on names and the data of extensions, Sensors the
--                   edits of sensors, Bodies and Targets those of weather stations and export targets,
--                   Settings the web-server settings, Users signing in and users
--   Poll            src/daemon/scheduler.cpp and src/weather/weather_scheduler.cpp: `cycle` is one
--                   round of the worker's loop, `run` the loop
--   Weather         src/weather/provider.cpp: requests and observations of the weather services
--   Export.TimeUtil src/export/timeutil.cpp
--   Export.Run      src/export/exporter.hpp, and what a run passes on and writes
--   Export.Runner   src/export/export_runner.cpp
--   Export.Schedule src/export/export_scheduler.cpp
--   Export.Webhook  src/export/exporter.cpp: the webhook exporter
--   Export.Dsn      src/export/dsn_format.cpp; Reader is a reader of the format, independent of the
--                   formatter, and Exporter the DSN exporter of src/export/exporter.cpp
--   Auth            src/auth/password.cpp
--
-- How the code is modelled. A C++ exception is a value (`Result`), with its class and its what() text.
-- A string is the list of its bytes. The state of a worker is a record that `cycle` takes and gives
-- back. A loop over system calls reads their results from a list, the tape, one element for each
-- call: it recurs on the tape, so no fuel is needed, and a tape that runs out is an outcome of its
-- own (`waits`). The loops of the workers recur on the list of cycles that the environment brings.
-- A run of an export passes the list of the rows that it has written. `decimal` runs on
-- fuel, the number and one, which is more than it has digits; `hosts_from` on 65536, the
-- most hosts that pass the test in front of it, so that its own test ends it; `cookie_from` on the length of the header and one, which each round shortens. A statement is the
-- list of what the code inserts into it, so that its texts can be told from its code; `text` is what
-- leaves. A method that throws while it dumps loses the text so far in the model. A handler of the
-- API is its try block as a program on the database, and what follows it.
--
-- Outside the repository, and so parameters: `double` with std::stod, printf's %f, the C library's
-- calendar (`Libc`), inet_pton, inet_ntop, realpath, PKCS5_PBKDF2_HMAC and RAND_bytes, the MariaDB
-- client (its escape, its answers and atof), the JSON library's parser, printer and conversions, the
-- HTTP server and client and std::sort. What a theorem needs of one of them is among its hypotheses.
--
-- Not modelled: the connection to the database, the routes of the HTTP API that only pass rows on as
-- JSON, the calibration routes, those that poll or test, and the platform socket, the command
-- line tools, TLS certificates, the mutexes, threads and condition variables themselves, and log
-- lines. Where an `int` can overflow, C++ leaves the result open; the model's integers do not
-- overflow.
pub mod Settings
pub mod Base
pub mod Text
pub mod Sqm
pub mod Db
pub mod Poll
pub mod Export
pub mod Auth
pub mod Config
pub mod Weather
pub mod Database
pub mod Api
mod Tests
