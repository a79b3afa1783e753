-- ===== src/Lib.antt =====
-- Internxt's drive server: the rules of its workspaces, of the versions of files, of plans, of
-- files, folders and the trash, of send links and of the storage that is used.
--
-- A workspace is shared storage that one user owns. Its code is one class over repositories,
-- src/modules/workspaces/workspaces.usecase.ts; the repositories read and write database tables,
-- and other services keep the network's storage limits, the folders and the mails. A file keeps
-- earlier contents as versions (src/modules/file/actions), as many and for as long as the plan of
-- its user allows, which src/modules/feature-limit says.
--
-- Prelude: names, tests, lists and integers that the modules share. Prelude.Table has the calls
-- of the object-relational mapper on a table as functions on the list of its rows, Prelude.Sum
-- what writes do to a sum over a table. Prelude.Outcome has handlers: an action reads and writes
-- a store and returns a value or throws one of the framework's exceptions; what was written
-- before a throw stays written. Its children take handlers apart step by step (Steps), and say
-- which write nothing (Reads) or write nothing when they throw (Atomic).
--
-- Workspaces.Store: the rows (domains/*.ts), the tables and the services. Workspaces.Repository:
-- the queries (repositories/*.ts). The methods of the class are in Workspaces.Storage (limits and
-- plans), Workspaces.Invitations (setup, invitations), Workspaces.Teams (teams and managers) and
-- Workspaces.Leaving (how members leave); the modules below each prove what its methods do. A
-- method keeps its name in snake case; a `try` is `catch`, a loop a recursion on its list.
--
-- Limits.Store: labels, limits and the queries of feature-limit.repository.ts. Limits: the
-- methods of feature-limit.service.ts that only read. Limits.Upload: its check of a file's size,
-- with the cache. Limits.Versioning: what a user's own limits and the tier's come to.
-- Limits.Counters: feature-limit.usecase.ts, the counters of shared items and of invitations.
--
-- Files.Store: files, versions and their queries. Files.Versions: the actions that create,
-- restore and delete a version, an action per function. Files.Retention and Files.Create are on
-- what the creation of a version keeps, Files.Unversioned on empty files, Files.Restore and
-- Files.Delete on what the other two do, Files.Undo on the loops that delete all versions of a
-- user. Files.Drive and Files.Handlers: the methods of file.usecase.ts that create, rename and
-- move a file, and the limits on empty files. Files.Names and its children are on the names in a
-- folder.
--
-- Folders.Names, Folders.Store: names with their encryption, rows and queries. Folders: the
-- methods of src/modules/folder/folder.usecase.ts that create, rename and move. Folders.Move and
-- Folders.Tree are on moves and the tree, Folders.Conflicts on the checks of names beside the
-- table's unique index, Folders.Bulk on many folders at once, Folders.Orphans on the deletion of
-- orphans. Trash: the methods of src/modules/trash; its children are on emptying it (Emptying),
-- on the deletion of items (Chunks) and on the times at which items expire (Expiration), by a
-- user's own retention or the tier's. Send: the methods of src/modules/send, with a proof on
-- passwords (Send.Passwords). Usage: the methods of src/modules/usage but the first calculation
-- of a user, with a proof on what they add up (Usage.Aggregate). Prelude.Table.Batches has the
-- loop over batches of rows that Trash uses, and Prelude.Table.Times the same for writes that put
-- their time into the rows.
--
-- Chosen: identifiers are numbers, which the code only compares; byte counts are whole integers,
-- and the quotient of two of them is a parameter, so the theorems hold for any rounding. A sum
-- over no row is 0 (the database gives null, which the code then uses as a number). Calls of the
-- database do not fail, except those of Files.Undo and of the rollback of a user who joins a
-- workspace, where a parameter says which ones do, and writes that an index or a column forbids:
-- a second version of the same content, a version without a file on the network, and a name that
-- is taken in a folder. So the handler of the event that empties the trash has nothing to catch;
-- the release of its lock is not modelled. A write that the source does not wait for counts as
-- done when the handler returns (the member's row in changeUserAssignedSpace). Times are
-- milliseconds, and a handler reads the clock once, but in Trash the clock goes on with each
-- write to the files. The text of a limit is `true`, a whole number or something else. Messages
-- leave out the numbers that the source puts into them, and mails what they say beside the
-- address and the invitation. Requests run one after the other. The loops have fuel: that of
-- Trash.Emptying needs more of it than items in the trash, and the recursion of Folders.Orphans
-- more than folders, since each round but the last deletes one. The two loops that empty the
-- trash write to different tables and run one after the other here. Folders have no time stamps
-- except where Trash.Expiration takes one, and no row has the time of its removal. What the next
-- random bytes are is a number that an encryption advances. The loop of Files.Undo has fuel; more
-- of it than the user has versions is enough, since each round but the last deletes a full batch.
--
-- Services that stand outside these files (`Services` in Workspaces.Store) are parameters: the
-- network's limits, the mailer, the folders of a member and their moves. The cache library is one
-- too (`CacheManager` in Limits.Upload), and so are the ciphers (`Ciphers` in Folders.Names,
-- `seal` in Send).
--
-- Not modelled: the other modules of src/modules (the rest of files and folders, sharing, users,
-- backups and so on), controllers, the listings of shared items, avatars, logs and the text
-- search; of the versions of files, the listing, the scheduled deletion of expired ones and the
-- partial undo.
pub mod Files
pub mod Folders
pub mod Limits
pub mod Prelude
pub mod Send
pub mod Trash
pub mod Usage
pub mod Workspaces
