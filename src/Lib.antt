-- ===== src/Lib.antt =====
-- P2P-File-Share: a tracker that keeps users, groups and the files shared in them, and clients that
-- upload descriptions of files to it and download the files, piece by piece, from one another.
--
-- Files of this library and the code that they are about:
-- - Base: bytes as texts, lists, association lists for std::unordered_map, exceptions as values.
-- - Stream: the part of std::stringstream, std::stoi and std::to_string that the program uses. A stream
--   is the text left to read with its eof and fail bits.
-- - Models: src/models. Endpoint, User, FileInfo, File, Group and Transaction stand for the types of
--   those names. A std::shared_ptr whose identity matters is a Shared: an address with the object.
-- - Tracker: src/tracker. UserDb and GroupDb are the databases, State the static variables of
--   process_request.cpp, ParseRequest is parse_request.cpp. UserRequests, GroupRequests and FileRequests
--   are the three handlers of process_request.cpp, a function for each branch, and ProcessRequest calls
--   them. Server is process_data, mirror and sync_with_online_trackers of tracker.cpp, with the record of
--   transactionsrecord.cpp. Program is main and the loop over the console of tracker.cpp, and Service the
--   thread that serves the clients: the event loop of Network with process_data as its callback.
-- - Client: src/client. PartFile, FilesDb, PeerDb and Hash are the files of those names, FileIo is
--   file_io.cpp over a disk of files, ProcessRequest the answer to a peer, Downloads the download
--   manager, ProcessInput the reaction to a line of input. Program is client.cpp: the connection to a
--   tracker, the loop over the console, and main.
-- - Common: src/common. TrackerInfo is load_tracker_info.cpp over the bytes of its buffer, and Ending how
--   the process of either program ends.
-- - Network: src/network. Socket is send_data, receive_data and the errors of connect of tcp_socket.cpp,
--   over the results of the system's calls. Sockets is its objects with the descriptors that they hold,
--   over a process that knows its objects by their addresses and has a set of open descriptors; Address
--   is bind, listen, connect, the addresses and the flags. EventLoop is the constructor and serveRequests
--   of tcp_server.cpp over the sockets that select reports, with the callbacks as arguments, and Server
--   its start and stop.
-- - Exchange: the client and the tracker together. Requests is a request text as the tracker takes it
--   apart, Uploads an upload from the client's request to the databases, with Entries for what it
--   enters there, and Downloads a download
--   from the line of the user over the tracker's answer back to the client.
-- - Viewer: the scripts of the documentation pages in docs, which come with the pages when they are
--   generated. Strings is the part of String that they use and Cookie is cookie.js. Search is
--   search/search.js: Box and Place are SearchBox and init_search, Ids, Rows and Keys are SearchResults,
--   Create is createResults. Sections and CodeFold are dynsections.js, Menu is menu.js, Resize is
--   resize.js, and NavTree is navtree.js: its links, and in Index, Tree, Show and Sync the search for the
--   index of a page, the nodes, showNode with the selection, and navTo with the sync button; Scroll is
--   gotoAnchor and Click the click on an item. Theme is
--   doxygen-awesome-*.js: DarkMode, Toc (interactive-toc), and CopyButton (fragment-copy-button and
--   paragraph-link).
-- - Tests: the theorems at concrete inputs.
--
-- How the parts interact: a client's line becomes a request text (Client.ProcessInput), which the tracker
-- parses and serves (Tracker.Server.process_data), records if it succeeded, and mirrors to the other
-- trackers. A tracker that starts executes the recorded texts of another one. A download request gives
-- the client a File, whose seeders enter its table of peers, and its download thread asks them for the
-- pieces, which each peer answers from its table of files. Both programs start from the list of trackers
-- (Common.TrackerInfo): the client connects to the first one that accepts and goes to another when the
-- connection closes; the tracker finds its own place in the list, and catches up with the others before
-- its thread serves clients.
--
-- The scripts of a page share the settings of Cookie: the search keeps its filter there, the layout its
-- width, and the tree the link that it stays at. The menu closes the results of the search when the width
-- of the window changes.
--
-- Conventions. Methods return the new state beside their result. An exception is a value of Checked. A
-- variable with no initialiser holds the argument `unset`. The walk over an unordered container goes
-- through its list, new entries last; C++ leaves that order open. The hash of std::hash and the digest of
-- OpenSSL's SHA1 are arguments, and so is what sockets and peers answer. Mutexes make each method of the
-- client's tables one step.
--
-- In Viewer a string is a list of UTF-16 units. The page is a record: a call of jQuery or of the document
-- is the change of the fields of that record that it is documented to make, and an animation is its end.
-- A script that a page loads is an argument, which gives what the script defines, or nothing where it
-- does not load. A timer is an id with what it calls.
--
-- Bounds and fuel. size_t is reduced modulo 2 ^ 64 where the code can pass it (the offset of a block), a
-- port modulo 2 ^ 16, and numbers that are read overflow as `>>` and std::stoi do. The loops that read the
-- pieces of a description and the blocks of a file have the length of the text and one as fuel; each
-- round takes a byte or more. receive_data has fuel for its rounds, of which each but the last takes a byte
-- or more. The walk over the rows of a search has their number and one as fuel, and the digits of a
-- number in base 16 the number and one; the loop over the newlines at the end of a fragment has the length
-- of the fragment and one. The loop over the tracker file has the size of the buffer and one: each round
-- goes behind a newline. The loops over the console run for the rounds that they are given, and are still
-- running where those are used up. %hu cuts a number to 16 bits; bits of the flags of a socket are the
-- digits of a number in base 2.
--
-- Not modelled: log output and the callbacks that only print; how the threads of a program interleave
-- within a round of the client's loop (what they have done, and an exception that left
-- one of them, stands between the rounds); what server.stop() at the end of the tracker's loop does to the
-- sockets, which is the stop of Network.Server; that sscanf may
-- write behind its buffer where an unterminated word fills it. In docs: jQuery (jquery.js), which the
-- scripts call, the tables that are written with the pages (menudata.js, navtreedata.js, the indices of the
-- tree and the results of the search), where the theme puts its elements, scrolling other than to an
-- anchor, and dragging.
pub mod Base
pub mod Stream
pub mod Models
pub mod Common
pub mod Tracker
pub mod Client
pub mod Exchange
pub mod Network
pub mod Viewer
pub mod Tests
