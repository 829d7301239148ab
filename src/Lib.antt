-- ===== src/Lib.antt =====
-- EXACT, a daemon for POP-before-SMTP relaying: it follows the log of a POP or IMAP server, finds
-- the logins in it by a regular expression, keeps a table of the hosts that logged in, and publishes
-- the table as a relay file for the mail server.
--
-- The parts, and the files that model them. Paths are those of the repository's root.
--   exact.c     Exact (World, onepass, scan_lines, handle_line), Exact/Cmdline (cmdline, usage,
--               version), Exact/Pid (checkpid, writepid, exit_handler), Exact/Main (main: configure
--               is its part up to match_init, serve the part up to the loop), Exact/Run (the
--               endless loop and the handlers of signals 10 and 14, as a sequence of turns)
--   tail.c      Tail (tail_open, tail_read, tail_reopen, linecount)
--   match.c     Match (match_init, match_line), Match/Login (the memory of match_login)
--   auth.c      Auth/Table (the arrays, auth_cmp, auth_present, auth_init_mem), Auth/Text
--               (auth_text_add, auth_text_clean, auth_text_dump, auth_write_text), Auth/Handlers
--               (auth_add, auth_clean, auth_dump, auth_init, auth_exit of a build without WITH_DB),
--               Auth/Interrupted (auth_text_add with the alarm's handler in its middle),
--               Auth/Database (those of a build with it, and the operations on a Berkeley database)
--   conffile.c  Conffile/Param (conffile_param, conffile_param_int), Conffile/File (conffile_read,
--               conffile_name, conffile_setname), Conffile/Check (conffile_check, server_check,
--               conffile_free, conffile_reload)
--   apconf.c    Apconf/Regex, Apconf/Scan (scan), Apconf/Parse (the rules), Apconf/Read
--               (apconf_read, apconf_getsec)
--   logger.c    Logger (logger_init, logger)
--   daemon.c    Daemon (usergroup, dofork, sesslead, rootdir, reopenfds, daemonize)
-- main reads the configuration, which reads the server definitions, drops its privileges, sets up
-- the table and opens the log. Each pass then reads the log (Tail), cuts it into lines (Exact),
-- matches each (Match) and adds the logins to the table (Auth). The handlers of signals change the
-- configuration (SIGHUP), dump the table (SIGUSR1), clean it (SIGALRM) or end the process (SIGTERM).
--
-- A function of the program becomes a function that takes the globals it reads and an `Os`, the
-- answers of the system and the C library during the call, and gives an `Outcome`: the effects in
-- their order and then a result, an exit with its status, or a fault. A fault is what C leaves
-- undefined, such as a null pointer that is followed, a write past an array or a free of a literal,
-- and a failed assert. Outcome/Files says what a trace of effects does to the files,
-- and Outcome/Triple what a call does to one file, in front of it, at every moment and behind it.
--
-- Exact/Run/Machine is the abstract machine that a running daemon is to be: a map from hosts to the
-- times of their last logins, and how far the log is read. Its turns are a relation, with a case for a
-- pass that reads new lines, a pass that opens a quiet log again, a pass that looks for a missing log,
-- a dump and a cleaning. A signal that arrives during a pass is handled behind it there;
-- Auth/Interrupted has one place where that is not so.
--
-- Numbers: a byte is a number, a C string the list of its bytes in front of the terminator. The
-- length of a read is kept in 32 bits, with the wrap-around written out in Tail; it is an int where
-- linecount and onepass take it so. An int that `atoi` reads is cut to 32 bits behind `strtol`. Times
-- and sizes of files are natural numbers, and their differences integers, without a bound.
-- Fuel: the loops over a file's lines have one unit for each byte and one or two more, and each
-- round takes a byte at least. With none left the model stops in a fault, whose trace is a parameter
-- of the loops, so that the theorems on their rounds tell it from any other fault. The loop over the
-- digits of a number has 20 units, enough for 64 bits.
--
-- Not modelled: the Berkeley DB library, whose calls are a parameter of Auth/Database; getopt.c,
-- getopt1.c and getopt.h, a copy of GNU getopt whose results are a parameter; the matching by the
-- configured pattern, which is the system's `regexec`; the interruption of a call by a signal at any
-- other place than that of Auth/Interrupted: a handler is a step of its own between two calls. main
-- and its passes are those of a build without WITH_DB. The block that `malloc(sizeof(a))` gives in
-- apconf.c, its true size and what stands at the count in it, are parameters, `usable` and
-- `stale_count`; without room for the count its use is a fault (Apconf/Overflow). qsort and bsearch
-- are written out as a sort and a search of the same order. The padding behind a host of 255 bytes is
-- taken to be zero.
-- Of writes: a full disk is modelled for the relay file, as a number of bytes that `fclose` leaves
-- (`Os.fclose`), not for the dump, the pid file and the log. A message is an effect `log`; what it
-- appends, and to which file, is the record `Printing` of Outcome/Files. A theorem about a file's
-- content has the condition that the logger's own file is not that one, or says what the log file is.
-- Whether `unlink` succeeds is an answer of the system.
pub mod Base
pub mod Libc
pub mod Outcome
pub mod Os
pub mod Conffile
pub mod Auth
pub mod Match
pub mod Tail
pub mod Exact
pub mod Apconf
pub mod Logger
pub mod Daemon
mod Tests
