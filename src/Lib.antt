-- ===== src/Lib.antt =====
-- A model of the mail agent bmagent, with the theorems that make it correct.
--
-- The agent stores messages in folders, gives a user a mailbox of them, manages the user's
-- identities, turns emails into Bitmessages, works through a queue of proof-of-work orders, and obeys
-- commands that come by email or by rpc.
--
-- Base: names of the libraries, texts as lists of codes, maps, sorting.
-- Data: store/data/folder.go. Data/MemFolder is `memFolder`: each method is a function that returns
--   the new folder beside its results (Go's NextID is next_id, and so on). Its children prove the
--   invariant (Last, Insert, Scan, Delete), what can be read (Reads), and what the loop over the
--   messages does (Visits). Data/MemFolders is `memFolders`, names that lead to folders in a heap.
-- Pow: powmgr/pow.go. The linked list stands in a heap of nodes; Pow/Links and Pow/Queue prove that
--   it is a queue, and Pow/Work what the worker makes of it. The fuel of `work` is one more than the
--   orders in the queue. The worker runs alone there; Pow/Race has the steps of any number of
--   workers, with orders that come in between, in every interleaving.
-- Mailbox: user/mailbox.go. Mailbox/Sequence is the search for a sequence number. Its floating-point
--   probe is an argument: Mailbox/Sequence/Probe says what is needed of it, for fewer than 2 ^ 20
--   indices and uids of 32 bits, where doubles have it. The fuel of the search is the number of uids.
--   Mailbox/Coding is user/bmail.go, the encoding of a stored message, with its round trip in Trip.
--   Mailbox/Box is the mailbox itself over an interface for its folder (`Folders`) and for the packages
--   (`Coding`): refresh and the reading of a message; Box/Sets has the ranges and sets of messages,
--   Box/Changes what changes the mailbox. Box/Own and Box/Stats say what the uids and the counters
--   mean (`Shows`); Box/Reads, Box/Delete and Box/Add prove what is read and what deleting and adding
--   preserve, of a folder in a state where the laws of `IsFolder` and `Appends`
--   hold, as Mailbox/Tests shows of concrete states of the folder in the database.
-- Store: store/folder.go, store/db.go and store/user.go. The buckets of the database and the secret
--   boxes are parameters (Store/Bucket, Store/Box). Store/Bytes has the eight bytes of an id, in the
--   order of the ids. Store/Folder is `folder`; Store/Folder/Refines relates it to the folder in
--   memory, call by call and over any number of calls, and Store/Folder/Each has the loops over the
--   messages. Store/Requests is store/pkrequests.go, and Store/Broadcasts is store/broadcasts.go.
--   Store/Loader has the transactions on the file: `Construct`, ChangePassphrase and the counters,
--   and Store/Loader/Users the users of the store. What is drawn at random and the ciphers are
--   arguments. Locked, Opening, Made, Passwords and Counters below it have the theorems.
-- User: user/user.go, process.go, serverops.go and command.go. User has the mailboxes of a user, moves
--   and acks, and User/Keeps their invariant; User/Create is `NewUser`. User/Objects makes the objects
--   of messages and acks over the interfaces `keys.Manager` and `ServerOps` (`Network`); User/Process
--   is `process` with its callbacks; the orders that it gives wait in a list; User/Deliver has emails by SMTP,
--   public keys and commands.
-- Agent: bmrpc/client.go, serverops.go, and the handlers of server.go. Agent/Client has the calls of
--   bmd over the generated stub, Agent/Ops how a public key is found or asked for, and Agent/Handlers
--   what is done with messages and broadcasts, and Agent/Handlers/Keys with requests for keys. The
--   ciphers and decoders are a parameter (`Ciphering`). What the proof of work calls back is kept in
--   lists of orders.
-- Cmd: cmd/patterns.go, command.go, help.go, newaddress.go, listaddresses.go, rpc.go, email.go and
--   errors.go. Cmd/Pattern and Cmd/Command read parameters, Cmd/Table has the commands and their
--   help, Cmd/Request builds commands from rpc requests, and Cmd/Run executes them for a user, which
--   is an interface, and answers. Cmd/Laws has the theorems.
-- Idmgr: idmgr/manager.go, db.go and keys/keys.go. Idmgr/Manager is the manager of identities; keys
--   and addresses are a parameter, `Libraries`. The loop of `New` has fuel, and more than the number
--   of indices that give no key is enough. Its children prove that the two lists of addresses
--   agree with the map (Listed), what `New` makes (Derived) and what is imported (Imported).
-- Email: user/email/bmail.go and content.go. Email/Address has the two patterns of addresses as
--   functions on texts, BmToEmail, ToBm and ValidateEmail, Email/Content the plain text of an email,
--   and Email/Smtp what becomes of an email that comes by SMTP. The parsers of addresses, times and
--   MIME parts are arguments. Email/Address/Trip, Email/Content/Plain and Email/Smtp/Draft have the
--   theorems.
--
-- Numbers of 32 and 64 bits wrap around where the source adds to them. A pointer that may be nil is
-- an option, a Go error a constructor of an error type, and a panic a result of its own.
--
-- Not modelled: the list of folders of a user (store), the encryption and the file format of the
-- identity manager, the emails for IMAP (user/email), the SMTP and IMAP servers, the timers, the start
-- and the stop of the server, and the configuration, which work through files, sockets and other
-- packages.
pub mod Base
pub mod Data
pub mod Pow
pub mod Mailbox
pub mod Cmd
pub mod Idmgr
pub mod Email
pub mod Store
pub mod User
pub mod Agent
