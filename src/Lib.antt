-- ===== src/Lib.antt =====
-- A model of a video platform: the NestJS backend in nestjs-project/src and the session logic of the
-- Next.js frontend in next-frontend.
--
-- The parts, the files that model them and the code they stand for:
--   Common      shared tests, lists, texts, results of calls, and tables of rows
--   Auth        nestjs-project/src/auth/auth.service.ts and auth/entities: Model (rows, settings,
--               libraries), Duration (jwtExpirationToMs), Sessions (login, refresh, logout),
--               Interleaving (refresh and logout by calls of repositories, side by side),
--               Verification (verification tokens), Accounts (register, confirm, resendConfirmation,
--               forgotPassword, resetPassword), Requests (any sequence of these methods)
--   Users       nestjs-project/src/users/users.service.ts
--   Channels    nestjs-project/src/channels: Nickname (nickname.util.ts), Service (createChannel)
--   Mail        nestjs-project/src/mail/mail.service.ts
--   Storage     nestjs-project/src/storage/storage.service.ts
--   Videos      nestjs-project/src/videos: Model (entity and queue), Service (videos.service.ts),
--               Processing and Reconciliation (the two processors), Commands (any sequence of them),
--               Interleaving (commands between the rows of a sweep)
--   Http        the guards, the error filters, the bodies and the two controllers (Routes has their
--               decorators, Handlers their methods)
--   Config      nestjs-project/src/config: the settings (Settings) and the schema of the
--               environment (Validation)
--   Database    nestjs-project/src/database/migrations, as statements on a schema
--   Frontend    next-frontend/lib/auth (Session, Refresh, Sharing for requests side by side, Forms),
--               the routes of next-frontend/app/api/auth (Session, Bff), and of
--               next-frontend/components/auth the signup form (Signup), the login and
--               forgot-password forms (Entry) and the strength meter (Strength)
--   Tests       the theorems at concrete inputs
--
-- How the code is read. A service method is an action: a function from the tables to a result and
-- the new tables, in which what was written before a throw stays written, since the code opens no
-- transaction but the one of createChannel. A table is a list of rows; a query is a condition on
-- rows. Field and method names are the source's, in snake case. The service calls compose as in
-- the source: the authentication service calls Users, Channels and Mail; the videos service and
-- the processors share the table of videos and the queue; the controllers' routes call the
-- services behind the two guards, of which the throttler decides by an argument.
--
-- Texts are lists of UTF-16 code units; where a length is one of characters (database columns),
-- surrogate pairs are counted once; the length that class-validator compares is an argument.
-- Identifiers of rows, families and digests are only compared, so they are numbers. Times are
-- milliseconds. What a call draws from outside, such as clocks, random bytes, new identifiers,
-- salts and the answers of the mailer, the queue, the storage, ffprobe and ffmpeg, is an argument.
-- Libraries that are not in the repository (argon2, JSON web tokens, sha256, class-validator, the
-- throttler, the transaction manager) are arguments too, and what a theorem needs of them is one
-- of its hypotheses.
--
-- Calls that run at the same time are threads over one memory (Common.Threads): a thread stands at
-- a point of its program and makes one call of a repository or resumes after one await at a time,
-- in any order. What TypeORM sends to the database within one such call (the joined lookups of
-- findOne, the select and update of save) is taken as one step. Apart from these modules a method
-- runs as a whole. A submission of a form is a function from the form's state and the state behind
-- the route to both afterwards; what the form shows is a function of its state.
--
-- Bounds: createChannel makes at most six attempts, as in the source, so its loop is recursion on
-- the attempts left; no other loop needs a bound. The doubles of a duration have at most 1024
-- bits, of which 53 are kept, so the fuel of 970 doublings in to_double is enough.
--
-- Not modelled: the wiring of the framework, what Joi accepts, how the throttler counts, the pages
-- and styles of the frontend, mail templates, generated types, seeds, and the interleavings of
-- methods other than refresh, logout, the sweep and withRefresh.
pub mod Common
pub mod Config
pub mod Channels
pub mod Mail
pub mod Users
pub mod Auth
pub mod Storage
pub mod Videos
pub mod Http
pub mod Database
pub mod Frontend
mod Tests
