-- ===== src/Lib.antt =====
-- Mailschleuse takes mail over SMTP, never relays it, keeps it in mailboxes, and serves it over POP3
-- and HTTP. This library models the parts that carry its logic:
--
--   Base       Boolean tests, lists, byte strings, maps and numbers that the other modules share.
--   Config     internal/config: Config/Routes has Route.Matches, Route.String and ParseRoutes of
--              routes.go, Config/Settings and Config/Sizes the readers of the environment of config.go,
--              and Config/Load the struct Config, Load and validate. An error is a value.
--   Mailparse  internal/mailparse/mailparse.go: Mailparse/Headers has splitMessage and parseHeaders,
--              Mailparse/Charset toUTF8 and decodeLatin, Mailparse/Filename SanitizeFilename,
--              Mailparse/Decoding decodeTransfer, parseMediaType and DecodeWord, and Mailparse/Walk walk
--              and Parse.
--   Store      internal/store/store.go and persist.go. Store/State has the record of the struct Store,
--              Store/Ops the operations that change it (New, Deliver, MarkRead, MarkAllRead, Delete,
--              Clear; Subscribe and publish stand in Store/State), Store/Queries those that read it
--              (Has, Get, Snapshot, Stats, List), Store/Listing describes what List gives,
--              Store/Summaries has the summary and the search, and Store/Disk the files, which
--              Store/Load reads at the start. Store/Consistency relates the mailboxes to the index
--              byID, Store/Newest describes what a delivery does to the mailboxes, and Store/Steps has
--              any sequence of operations.
--   Smtpd      internal/smtpd/server.go. Smtpd/Data has readLine and readData, Smtpd/Command the parts
--              of a command line, Smtpd/Routing matchRoutes and resolveMailboxes, and Smtpd/Session
--              the session record, a handler per command and the loop of run.
--   Pop3d      internal/pop3d/server.go. Pop3d/Wire has splitLines, crlfSize and writeDotStuffed, and
--              Pop3d/Session the session record, the locks, a handler per command and the loop.
--              Pop3d/Server has the connections that share the locks and the store: they take turns,
--              command by command, in any order.
--   Web        internal/web: Web/Compose has Build of compose.go. Of server.go, Web/Access has withAuth,
--              withCORS, withReadOnly and the base path, Web/Reading and Web/Changing the handlers,
--              Web/Events the stream of events, and Web/Server the paths and the handler that New
--              builds; staticHandler of static.go stands in Web/Reading.
--   Main       cmd/mailschleuse/main.go: the options that run gives to each server, the listeners, and
--              what describeEndpoints, describeRoutes, portOf, newLogger and probe compute. Main/System
--              has the three servers on one store, which take turns in any order.
--   Tests      test data, and theorems at concrete inputs.
--
-- The parts meet in the store: handleData (Smtpd/Session/Deliver) calls Deliver once for each mailbox
-- that resolveMailboxes names, handlePass (Pop3d/Session/Login) takes a Snapshot, handleQuit
-- (Pop3d/Session/Transaction) calls Delete, and a request over HTTP (Web/Server) makes one operation
-- of the store at most. A function keeps its name, in snake case, and a comment
-- above a definition gives the name of the source where the two differ.
--
-- How the state is modelled:
--   * A string is a list of bytes. Case and white space are those of ASCII, where the source uses the
--     ones of Unicode (ToLower, TrimSpace). EqualFold also has the two characters outside of ASCII that
--     fold to ASCII letters, and strings.Map what it makes of bytes that are no UTF-8.
--   * A message is a value. What changes of it, the read flag, stands in a heap of the store
--     (`reads`, with the next address in `cells`), since mailboxes, index and sessions share it.
--   * The ids of NewID and the times of the clock are a sequence, one for each message that is made.
--     That no id comes twice is a hypothesis (IsFresh) of the theorems that need it.
--   * A connection is the list of the lines that it still gives, and a second list behind STARTTLS,
--     none where the handshake fails. A reply is the format and the arguments that go to fmt.
--   * What bufio leaves of a line that is longer than maxLineBytes is a parameter (LeftOver).
--   * The data directory is two maps, for the .eml and the .json files; which writes fail, and how
--     encoding/json writes and reads the metadata, are parameters. mailparse.Parse is a parameter of Deliver; Mailparse/Walk has it on bytes.
--   * What the source takes of Go's packages mime, multipart, quotedprintable, net/mail, encoding/json
--     and time is a parameter (Codec, Mime and World). A request is given as net/http reads it, with a
--     clean path; the mux of New is modelled. The payload of a response is a value, before JSON.
--   * A map of headers is a list in the order in which the source walks through it.
--   * Sizes are natural numbers without a bound. They are lengths of texts in memory, which an int64
--     holds. A number that a client writes is read as an int64, or refused.
--   * The loops over lists are structural recursion. The two command loops run on fuel, one unit for
--     each round. A round takes a line of the connection, so that the lines and one more are enough.
--
-- A depth of MIME parts is what is left of maxDepth, so that the walk is structural recursion;
-- wrapBase64 runs on fuel, the length of its text, of which a round takes 76 characters.
--
-- Not modelled: the sockets, the TLS handshake, deadlines and shutdown, logging, and the interleaving
-- of goroutines inside an operation, which the locks of the source exclude; the errors of reading the
-- data directory; the Allow header of a response 405 and the redirect to a clean path; the listings
-- of http.FileServer; of cmd/mailschleuse the flags, the goroutines and the signals;
-- internal/tlsutil, which makes keys and certificates with crypto libraries.
pub mod Base
pub mod Config
pub mod Mailparse
pub mod Store
pub mod Pop3d
pub mod Smtpd
pub mod Main
pub mod Web
pub mod Tests
