-- ===== src/Lib.antt =====
-- The web client of file-space keeps a chosen folder of the user's disk in step with the server.
-- This library models the part of it that decides what is read, written, uploaded and deleted, as
-- the code is written, and proves what these decisions come to.
--
-- - Base: tests for equality, lists and sets of names, `Map`s and `Record`s as association lists
--   (Base/Dict), the text functions of JavaScript (Base/Text, with `decodeURIComponent` and the
--   escapes of `URLSearchParams` in Base/Text/Uri), asynchronous code that may throw (Base/Effect)
--   and a program logic for it (Base/Effect/Logic).
-- - Api: the wire types of frontend/src/api/types.ts.
-- - Sync/Env: the folder behind the File System Access API, `crypto.subtle` and the server behind
--   `ReconcileApi`. They are parameters. Every call is recorded in a history, and a reply is a
--   function of all calls made before, so that nothing is assumed of the environment: it may change
--   between any two calls and may fail at any of them. Statements about calls speak of each call
--   and of the calls before it.
-- - Sync/Hash and Sync/Scanner: `sha256Hex` of frontend/src/sync/hash.ts and `scan` of
--   frontend/src/sync/folderScanner.ts. The listing of a folder yields its handles one by one and
--   may end in an exception; what it yields is fixed at its start.
-- - Sync/Progress, Sync/Actions, Sync/Passes, Sync/Reconcile: `reconcile` of
--   frontend/src/sync/reconcile.ts. Progress holds its local variables, Actions its loop over the
--   server's actions, with `writeFile` and `entryFromFile`, Passes the loop of the uploads and the
--   loop of the remote deletions, and Reconcile the whole. Actions/Steps has the first loop as a
--   step relation, and Passes/Rounds one round of the second.
-- - Sync/CopyName and Sync/Resolve: `conflictCopyName`, `resolveKeepLocal`, `resolveKeepRemote` and
--   `resolveKeepBoth` of the same file. The date is an argument.
-- - Sync/Storage: frontend/src/sync/storage.ts with its memory store; the operations take any store.
--   Storage/IndexedDb has `IndexedDBStore`. The browser is a parameter that tells the events of its
--   requests and transactions, and Storage/IndexedDb/Browser has the handlers of these events:
--   `openDB` and the promises of `get`, `set` and `delete`. A promise that never settles is an
--   exception of its own, which no code between the store and its callers catches.
-- - Sync/Context: the state and the handlers of frontend/src/sync/SyncContext.tsx. What a handler does
--   between two `await`s is a function on the state, and Context/Steps has the page as a step
--   relation in which the waiting handlers get their replies in any order. A handler keeps the state
--   of the render that it was made in; a click is one on the buttons of the last render.
-- - Client: frontend/src/api/client.ts. Client/Env has the browser's `localStorage`, `fetch` and
--   `XMLHttpRequest` as parameters, in the way of Sync/Env; Client/Request the requests with one
--   refresh of the tokens and one retry, Client/Endpoints the JSON endpoints, and Client/Upload the
--   uploads. The chunks of an upload are cut on fuel, the size of the file, which is enough for every
--   chunk size but 0, with which the loop of the source does not end. Client/Download has the
--   requests for blobs, and the two regular expressions of `parseFilename` as a search for the first
--   position at which they match.
-- - Sync/Panel: what frontend/src/sync/SyncModal.tsx and frontend/src/sync/SyncConflictsSection.tsx
--   show: sizes, the log, and the conflicts that are being resolved.
-- - Auth: frontend/src/auth/AuthContext.tsx and the form of frontend/src/auth/LoginPage.tsx over the
--   client. Auth/Steps has what runs between two `await`s as a step relation, and Auth/Handlers the
--   handlers as runs of these steps. Auth/Agreement takes `localStorage` to return the items of the
--   calls recorded.
-- - Drive: frontend/src/App.tsx and frontend/src/columns.tsx: uploads, the pages of the list, the
--   preview with its object URLs, drags, columns and the extension menu. The query library is not
--   modelled: Drive/Paging says which lists of pages it may hold. React renders at a commit, which is
--   an event of its own in Drive/Preview.
-- - Tests: runs of the definitions and of the theorems at concrete inputs.
--
-- Sizes, ids, times and versions are natural numbers, bytes are natural numbers, and a file is its
-- name, time and content. Beside the chunks, fuel is needed in `to_string` only, where it is the
-- number itself plus one, which is more than its digits. `toISOString` is modelled from the epoch
-- to the last date that it accepts.
--
-- Not modelled: names that are members of `Object.prototype` and the order of integer-like keys of a
-- `Record`; the markup of the React components and the percentages of the progress bars; the table,
-- query and virtualizer libraries; the server.
pub mod Base
pub mod Api
pub mod Client
pub mod Auth
pub mod Drive
pub mod Sync
pub mod Tests
