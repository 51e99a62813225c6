-- ===== src/Lib.antt =====
-- ii, a command-line tool that moves files between machines, models of its core in Rust.
--
-- The program prints tickets that say where a file is to be had, serves files to browsers and to
-- WebDAV clients, takes uploads, proxies connections, and reports what it does as lines of JSON.
-- What is modelled:
--
--   Ticket   src/ticket: `Ticket` with its constructors and accessors (Model, Routes), and `encode`
--            and `decode` with the two older formats (Codec). The serializer and base64 are the
--            record `Format`, with the law that they read back what they write.
--   Json     src/json.rs: the text of an event line. Json.Reader is a reader of the JSON that the
--            lines are; it is no code of the program, but the independent description of the format.
--   Http     src/web/http.rs: the parser `read_web_request` over the reads of a connection
--            (Parser), the request and the access token (Request), the responses (Response), and
--            the escaping of text for pages and headers (Escape).
--   Dav      src/web/dav.rs: `serve_dav_connection` (Server) and its handlers: put, mkcol, delete
--            (Handlers), move_or_copy (Transfer), lock, unlock, proppatch (Locking), propfind
--            (Server); the lock table (Locks), the paths and targets (Path), and the basic
--            authentication (Auth).
--   Upload   src/web/upload.rs: the sessions of resumable uploads with create_session, session_head
--            and the two cleanups (Sessions), write_upload_chunk (Chunks), and the parsers of their targets
--            and ranges (Query).
--   Socks    src/service/socks5.rs: the negotiation, the request and CONNECT (Session), the
--            addresses on a stream and in a datagram (Address), the peer of a BIND and the relay of
--            datagrams (Relay).
--   WebRtc   src/web/webrtc.rs: the rooms of the signalling server and their limits (State), the
--            queries of its requests (Query), and the requests (Server).
--   Web      src/web/directory.rs: the ranges of a download (Range), the targets of the pages
--            (Target), and which file or page a request gets (Directory).
--   Discovery  src/discovery.rs: the client that finds a share by a code, and the answer of the
--            server, both over the datagrams that arrive.
--   Tunnel   src/service/tunnel.rs: the authentication of a stream and the limit on connections,
--            and the choice of a port.
--   Watch    src/service/watch.rs: which files a round of the watch loop sends.
--   Azure    src/backend/azure.rs: the upload of a file block by block. Azure.Service says what the
--            storage service does with the requests.
--   Storage  src/storage: how a profile is loaded, completed, asked for and checked, for all kinds
--            (Storage), the kinds S3, R2, WebDAV and FTP (S3, R2, WebDav), and the names of stored
--            objects (Keys), which remote_path_parts of src/backend/mod.rs takes apart.
--   Cli      src/cli/common.rs: validate_send over the options of src/command.rs (Options), and the
--            parsers of rates, durations and ports (Values). Cli.Valid says which options go together
--            without an order of checks.
--   Prelude  what the standard library of Rust does with text and numbers, and shared lemmas.
--
-- How the parts interact. The DAV server and the web server get a `WebRequest` from Http.Parser
-- and answer by a `Response`, which Http.Response renders. Every handler that changes a file first
-- asks the lock table; a permission also drops the locks that have expired. The handlers of a
-- server share their state through a mutex, so that a run of the server is a sequence of the
-- critical sections: Dav.Locks.Holder and Dav.Locks.Reach have one step for each of them. A MOVE has
-- three, and Holder keeps the MOVEs that are between them. Dav.Transfer runs a MOVE without other
-- requests in between. Upload.Invariant has one step for each request, and WebRtc.Calls one for each
-- call of the signalling.
--
-- How the code is translated. A function that reads or writes shared state takes the state and
-- gives the new one beside its answer; an answer `none` is an error that drops the connection. The
-- file system is a record of its calls over an abstract state (Dav.Handlers.FileSystem,
-- Upload.Sessions.UploadFiles), and so are other hosts (Socks.Session.Net, Azure.Remote). Other
-- libraries, which code percent signs, UTF-8, base64 and URLs and give random tokens, are
-- arguments. Text is a list of code points or of bytes; a number that is parsed is bounded by the
-- width of its type, and the checked additions of the upload sessions are written out. Instants
-- are nanoseconds since the start of the program. What arrives while the program waits is a list:
-- the datagrams of a discovery, the rounds of a watch, the lines that are typed. A hash map is a
-- list of entries with distinct keys. Paths are those of Unix.
--
-- Bounds and fuel. `to_string` in Prelude.Number has more fuel than the number has digits. The
-- loop of Azure.put_blocks has the 50,000 blocks that the service allows for fuel, and the size of
-- a block is chosen so that these are enough. The loop of Tunnel.bind_first is over the ports that
-- are left. All other loops are recursion over the bytes, lines, reads, entries or datagrams that
-- they walk. The head of a request has at most 16 KiB.
--
-- What is not modelled: sockets, TLS and the accept loops; the interim response 100 Continue; the
-- bodies of DAV requests, which come in chunks; the properties that PROPFIND lists of one file,
-- and GET of a directory, which are parameters of Dav.Server; copying a directory, which is a call
-- of the file system; the forwarding of bytes by the proxies and their timers. Of directory.rs,
-- the constant markup of a page; of discovery.rs, the sockets; of watch.rs, the walk over the
-- directory, with its filters; of azure.rs, the signatures and downloads; of the profiles, the
-- kinds Azure and SFTP, and the file that keeps them. The other storage backends, the
-- transports, the loops over the command line, the FTP and LAN services, the relay and the
-- graphical interface have no model.
pub mod Storage
pub mod Azure
mod Prelude
pub mod Ticket
pub mod Json
pub mod Http
pub mod Dav
pub mod Upload
pub mod Socks
pub mod Cli
pub mod WebRtc
pub mod Web
pub mod Discovery
pub mod Tunnel
pub mod Watch
