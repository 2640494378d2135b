-- ===== src/Lib.antt =====
-- cloudpost: a self-hosted mail server in one process. It keeps mailboxes in a SQLite database and
-- message files on disk, serves them by SMTP, POP3 and IMAP, fetches remote mailboxes, filters
-- what comes in, and sends through a retry queue.
--
-- The parts and their files. Mailstore is internal/mailstore: Schema has the rows and the Store,
-- which is the tables, the blob files and the clock; Flags, Folders, Messages, Accounts, Filters,
-- Tokens, Scheduled and Search have the methods of store.go, store_filters.go, tokens.go and
-- scheduled.go, one function for each, by the method's name (Deliver is deliver, EnsureFolder is
-- ensure_folder). A method returns the store that it leaves and a Result. Mailstore.Invariant says
-- when a store is well-formed, and its children show that each method keeps it; Mailstore.History
-- has any sequence of calls.
-- Engine is internal/filter/filter.go: Rules has match, Apply and its actions. Smtpd is
-- internal/smtpd/smtpd.go: Session has Auth, Mail, Rcpt, Data has Data with the hooks of
-- cmd/cloudpost/main.go, Login the SASL LOGIN server, Gate the commands of a client as a step
-- relation. Pop3d is internal/pop3d/pop3.go: Wire has the lines and dot-stuffed blocks, Session
-- the connection, Commands the commands and the loop over the lines. Imapd is internal/imapd:
-- Mailboxes and Messages have the handlers of imap.go and fetch.go, Search the criteria, Sections
-- the slices of a message, Fetching FETCH. Sender is internal/sender: Routes, Queue, Dkim and
-- Scheduled. Fetch is internal/fetch: Pop3Client has the reader of pop3_client.go, Remote both
-- fetch loops, in which the connection may break at any message. Installation is
-- internal/state/state.go. Text has the string functions of the Go library that the program uses,
-- and Prelude what all files share.
--
-- Web is internal/web: Ports is ports.go; Http has the state of the server (Site), requests and
-- responses; Json the bodies that are decoded; Auth the sessions and logins and Setup the wizard
-- of web.go; Mailbox is handlers_mail.go with the file names of mailsafe.go; Mime is mime.go;
-- Source and Compose are handlers_compose.go, the text of a message and its sending; Admin has
-- handlers_admin.go: Accounts, Rules, Settings, Dkim, Reset (with Reset of internal/db/db.go and
-- WipeBlobs) and the router Routes; Api has the routers handleMail and handleAPI. A handler takes
-- the Site and the request and returns the Site that it leaves and the response.
--
-- How they meet: the services and the fetcher call the store's methods, SMTP and the fetcher run
-- Apply over what they delivered, SMTP, the web interface and the delayed messages hand texts to
-- the queue, and the web interface changes the configuration and the ports. The composition is
-- that of the code: a handler takes the store and returns it.
--
-- Numbers and texts. Identifiers, times and sizes are natural numbers; a UID that leaves as uint32
-- is taken modulo 2^32. Texts are byte lists; letters are folded and spaces trimmed as for ASCII.
-- Row ids, file names and session tokens come from counters, as AUTOINCREMENT and random names do
-- not repeat. JSON columns are the lists that they encode. A transaction that fails leaves the
-- tables as they were. A disk that is full fails every write. The text of an error from outside is
-- not modelled. A session's token is the number of its draw; a path of the web interface is a byte
-- text. JSON numbers are integers; a negative number reads as zero where the handlers treat all
-- numbers below one alike; the names of a body are compared as the decoder does. An address that a
-- service listens on is its host and its port.
--
-- The handlers of the web interface change the configuration where State keeps it, as they do in
-- the code, so that a refused request may leave a change. The loop over the four port settings
-- follows one of the orders that the map may give. A clock stands still during a request. The
-- tables users, sessions and settings of the database, which no code reads or writes but the
-- reset, are not in the state.
--
-- Loops are recursion on the list that the code ranges over. The reader of a multi-line answer
-- runs on fuel, one more than the bytes there are: each round reads a byte at least, and the round
-- trip shows that it is enough. The lines of base64 run on one round for each byte.
--
-- Parameters: External has the parser of messages (parse.go, over the standard mail library),
-- bcrypt, SHA-256 and regular expressions; Signer and Network have the DKIM library and the SMTP
-- client. Outside has what the web handlers take from elsewhere: whether an address can be bound
-- at an attempt, base64, URL decoding, the texts of dates and draws, and, though they are code of
-- this repository (parse.go and mailsafe.go), the reader of MIME parts and the HTML sanitizer,
-- which are not modelled. What a theorem assumes of one of them is among its hypotheses.
--
-- Not modelled: the MIME reader of parse.go, the HTML sanitizer, LIST patterns, the static files
-- and headers of the web server, the text of DKIM records, the connection tests, the database
-- migrations (internal/db), certificates (internal/tlsutil), listeners, deadlines and goroutines;
-- each connection is a sequence of steps, and the store is a value that the steps pass on. The
-- admin's fetch of an account starts beside the answer and is not a step of the handler. The
-- longest password that bcrypt takes is not modelled.
pub mod Prelude
pub mod Text
pub mod Mailstore
pub mod Engine
pub mod Installation
pub mod Sender
pub mod Smtpd
pub mod Imapd
pub mod Pop3d
pub mod Tests
pub mod Fetch
pub mod Web
