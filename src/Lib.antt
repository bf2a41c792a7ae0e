-- ===== src/Lib.antt =====
-- workload puts a load of file accesses on a set of disks. It holds a list of files, each assigned to
-- one of the disks; threads draw a file, skewed by two ratios, read or write it, count the access and
-- keep the files in the order of their access counts; and, when relocation is on, files move so that
-- those accessed most stand on the first disks. A control socket and the keyboard give commands, and a
-- meta database is kept up to date with the counters.
--
-- The parts and their files:
--   Store.antt, Store/Types.antt: the state, include/workload.h. A file and a disk stand at addresses of
--     two heaps (functions on numbers), a pointer is an address, and NULL is `none`.
--   Store/Db.antt, Store/Db/: source/workload_db.c. A function that may return -1 is a `Command`; the
--     queries are data, and what the database answers is the member `answer` of the connection.
--   Store/Ranking.antt, Store/Ranking/: the loops of source/workload_access.c over m_file_sorted.
--   Store/Access.antt, Store/Access/: source/workload_access.c. `AccessIo` is what the calls of the
--     system answer in one access. Counters wrap at 64 bits.
--   Store/Assign.antt, Store/Assign/: source/workload_file.c and source/workload_relocate.c. `MoveIo` is
--     what the calls of the system answer in one move. Lists and Chains are about the doubly linked
--     lists of the disks, Placement and Relocation about the disk of each file, Rest about what a move
--     leaves alone.
--   Setup.antt, Setup/: workload_update_file_array of source/workload_file.c, and the assignment of the
--     files and the places of the disks in source/workload_config.c.
--   Control.antt: workload_cmd of source/workload.c, and the setters of the flags.
--   Control/Udp.antt, Control/Udp/: workload_udp, line by line.
--   Control/Random.antt: __workload_access_random_index.
--   Control/System.antt, Control/System/: the threads together. A run is a sequence of steps. What runs
--     under one lock is a step: the counting of an access, the restart of a disk, the reset of all
--     counters, the stamps at the end of a move, a change of flags; and so is a whole command. Parts and
--     Obeyed compose moves and commands of parts, between which steps of other threads may come. To take
--     a file out of the list of its disk, and to put it into the list of another, is one step each, which
--     the code does not ensure: it changes these lists under the lock of the file alone. That two moves
--     change the lists of the same disk at once is not modelled. A packet is a run of commands.
--   Io.antt, Io/: workload_mkdir_recursive of source/io.c. Its fuel is a number more than the length of the
--     pathname, since the pathname of the directory above is shorter. mkdir answers EEXIST for a
--     symbolic link to nothing too, which stat does not find.
--   Storage.antt, Storage/: the threads of the disks (source/workload_storage.c) that lay down the files
--     assigned to them, and the loop of source/workload_config.c that starts them and waits. The
--     loop of a thread has the number of files as its fuel: the list of a disk holds no file twice.
--     The threads stand one after the other; lay_files takes the files in any order on any disks.
--   Setup/Meta.antt: the meta database of a configuration. Setup/Files.antt, Setup/Files/: the making of the
--     files, whose ids are unsigned ints with at most ten digits. Setup/Config.antt, Setup/Config/: the
--     loading as a whole, __workload_parse_config. Setup/Seats.antt, Setup/Chosen.antt and
--     Setup/Complete.antt: which file a round of the assignment chooses, by all three methods.
--   Setup/Options.antt: the options of the command line, source/workload.c. Setup/Values.antt, Setup/Values/:
--     the values of the configuration. Setup/Disks.antt, Setup/Disks/: the list and the array of the
--     disks, source/workload_config.c and source/workload_storage.c. The disk with the id n stands at n - 1.
--   Xml.antt: source/xml.c. A pointer to a node is the tree behind its two links.
--   Control/Client.antt, Control/Client/: source/workload_control.c, up to the server.
--   Database.antt, Database/: source/db.c, the rows of a query as a list in a heap of nodes.
--   Service.antt, Service/: source/service.c, the owner and the thread of one service. Close and Ask are
--     about closing, Tests about runs of it.
--   Text.antt, Text/: source/string.c. A string is the list of its bytes before the NUL.
--   Random.antt, Random/: source/random.c. Timer.antt: source/timer.c. Math.antt, Math/: source/math.c.
--   Prelude.antt, Prelude/: numbers, lists, sums and tests that the modules share.
--   Tests.antt, Tests/: the theorems at concrete inputs.
--
-- Bounds and fuel: unsigned integers wrap where they are written (`u32`, `u64`). The loop of
-- access_random_index has the number of files as its fuel, the loops over a packet and over a path the
-- length of the text; the theorems about them say that the fuel is enough. The loops over rounds of a
-- transfer end where the list of answers ends, which stands for an answer of 0.
--
-- Where C defines nothing, the model stops with -1 or with none: at a division by 0 in the assignment
-- (Setup.antt) and in the draw of a file (Control/Random.antt), at a place past the end of m_disk, and at
-- a name that does not fit into the memory of a new file (Setup/Files.antt).
--
-- Not modelled: freeing memory; the failure of a malloc, but for pathnames, disks,
-- files, their arrays and the rows of a query; what is drawn on the screen;
-- signals, daemons and logs; the reading of files; getopt_long, of which the options found are a list; the
-- vendored ezxml, of which the tree and `ezxml_child` are parameters; the clients of sqlite3 and mysql.
pub mod Prelude
pub mod Math
pub mod Random
pub mod Timer
pub mod Store
pub mod Text
pub mod Setup
pub mod Storage
pub mod Io
pub mod Service
pub mod Xml
pub mod Database
pub mod Control
pub mod Tests
