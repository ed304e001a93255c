-- ===== src/Lib.antt =====
-- The battery monitor s800bm: a program on a data logger that measures the cells of a battery over
-- serial ports, balances them, and serves the values over the network.
--
-- Parts and files. Paths are from the repository's root.
-- - Common: helpers (Boolean tests, lists as C arrays, C's ints, exclusive or, runs that can fault or
--   spin).
-- - Float: C's float and double as a parameter, with the facts of IEEE 754 that the theorems use; the
--   instance Fixed meets them.
-- - Serial: batterySystem/s800serialDAO.c. Port is the operating system's serial port (a parameter), and
--   `enum serialCommand`; Checksum is genChecksum, Decode is decodeData, Exchange is SendToSerialAndRecv
--   and the loop that empties the receive buffer, Command is sendSerialTextCommand,
--   sendSerialControlCommand and sendSerialTextCurrent, Select is selectMini and selectMax, and
--   Open is openSerial.
-- - Pack: single_battery and battery_pack of batterySystem/battery.h.
-- - Balance: control_voltage of batterySystem/bs01thread.c.
-- - Savefile: the file of the internal resistances, RES_FILE, of thread_bs01 in
--   batterySystem/bs01thread.c.
-- - Output: closeSerial, printftime and RedirectStdIO of batterySystem/s800serialDAO.c.
-- - Patrol: thread_bs01, which starts from that file, measures all cells in a patrol, publishes them in
--   the shared record, sends them to the database, and calls control_voltage once a minute. Opening
--   is what a patrol does before the first cell, Start and Whole are the thread before and around its
--   loop, Rate is its pace by a clock, Continue is its start after a patrol that was broken off,
--   Reload its start after one whose writes were cut short, and Served what clients are told beside it.
-- - Current: thread_dis01 of batterySystem/dis01thread.c, which publishes and stores the current once a
--   second.
-- - Network: cmd_network of batterySystem/networkCommunication.c, which answers a client from the shared
--   record, in Accept the loop of thread_network_tcp, which starts a thread for each client, and in
--   Accept/Start the whole of that thread, from the socket on.
-- - Database: batterySystem/manageData.c, the statements that are sent to the MySQL server, which is a
--   parameter; Sql has their texts, and the buffer in which they are sent.
-- - Monitor: main of batterySystem/monitor.c, which starts the three threads.
-- - SerialToPc: cmd_serail of batterySystem/serialToPC.c, which is not built.
-- - SystemTime: SetSystemTime and main of batterySystem/temptest.c.
-- - TestPrograms: main of batterySystem/maintest.c and of batterySystem/mainoftest.c.
-- - Tests: the model run on concrete inputs, and the theorems at such inputs.
--
-- How the parts interact. main of Monitor redirects the output, creates the tables with Database and
-- starts the threads. thread_bs01 and thread_dis01 each have a serial line, on which they send the
-- commands of Serial; they change the shared record of Pack under one lock, and store what they measure
-- with Database, over the same outside world. What another thread does to the record in between is a
-- parameter of each: the current that thread_bs01 finds in it, and what becomes of the record between two
-- turns of thread_dis01. A thread for each client reads the record.
--
-- Conventions. A computation over the outside world ends with a result, in a fault, which is undefined
-- behaviour, or spins, which is running out of fuel. The loops of the commands are on fuel: three
-- rounds are enough for a command other than a resistance test, and for the loop that empties the receive
-- buffer as many as it takes until a read finds nothing; three rounds are enough for the reads of
-- cmd_serail where they find nothing. The loops over cells and bytes are by the
-- rounds left. `time_t` and the number of cells are natural numbers, and a `char` is unsigned.
--
-- Not modelled: s800bmSemaphore.c, all of which is a comment; the headers under
-- batterySystem/mysql, a copy of the MySQL client's; the messages of the network thread,
-- thread_bs01 and openSerial, and which message a database function prints on an error; what the
-- server makes of the statements. The descriptor that openSerial gives a thread stands in the outside
-- world, which its port reads and writes.
pub mod Common
pub mod Float
pub mod Serial
pub mod Pack
pub mod Balance
pub mod Network
pub mod Output
pub mod SystemTime
pub mod SerialToPc
pub mod Savefile
pub mod Patrol
pub mod Current
pub mod Database
pub mod Monitor
pub mod TestPrograms
mod Tests
