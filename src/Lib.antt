-- ===== src/Lib.antt =====
-- Verification of the backend's core: reading sessions, grades and streaks, the library, shields,
-- challenges with their badges, the feed, follows and blocks, notifications, and reading clubs (backend/app).
--
-- How the parts interact. A request runs a service method on one database session. The service reads and
-- writes tables through repositories, and stages domain events on the session. A request that returns is
-- committed, and its events are drained onto the event bus; one that raises is rolled back, and its events
-- are dropped. Handlers on the bus, here those of the challenge service and of the notification service, open
-- sessions of their own, and may stage further events.
--
-- Which file models which part:
--   * Core/Exceptions: backend/app/core/exceptions.py. `Raised` is what leaves a service, `http_status` what
--     the client is answered.
--   * Core/Database, Core/Session: the tables as lists of rows, and core/db.py with the event queue of
--     shared/event_bus.py. `Action` is a service method: a function of the session to a result or an error
--     and the session after it. What was written before an error stays in the session, and `run_request`
--     rolls it back.
--   * Core/Events, Core/EventBus: the event classes of the domains, and LocalEventBus with `_dispatch`.
--   * Core/Threads, Core/Pages, Core/Cursors: what the discussions of clubs and of the feed share, replies one
--     level deep with the cascade of their deletion, and listings before a time with the cursors that follow
--     them.
--   * Book: the library operations of book/service.py, UserBookRepository, and BookQueryAdapter of
--     reading/providers.py.
--   * Feed: feed/models.py, feed/repository.py and feed/service.py. Feed/Repository has the rows of feed_events
--     that the other domains record; such a row is known by its place in the table. Feed/Posts, Feed/Reactions
--     and Feed/Comments have the statements, Feed/Service the operations of a request, Feed/Reach the requests
--     in any order. Feed/Highlights has the highlights with their visibility and the card that a shared one
--     leaves in the stream, Feed/Activity the reactions to the events of the stream and the comments on them.
--     The public address of an image is an argument.
--   * Social: social/models.py, social/repository.py and social/service.py. Social/Graph and Social/Reach have
--     the graph of follows and blocks, Social/Leaderboard the ranks of the weekly leaderboard over the rows of
--     its query.
--   * Notification: notification/models.py, notification/repository.py and notification/service.py;
--     Notification/Subscribers is the notification part of main.py. The query of the devices is taken to
--     succeed; the push to them and the message over the websocket come after the request and are left out.
--   * Reading/GradePolicy, Reading/StreakPolicy: grade_policy.py and streak_policy.py, with the shield rules
--     of reading/service.py.
--   * Reading/Repository, Reading/Service, Reading/Sessions: the repositories, the session operations, and
--     their theorems.
--   * Reading/Goals: GoalRepository, `_compute_window` and create_goal. The calendar of datetime (the year and
--     the month of a date, and the ordinal of a first day) is a parameter.
--   * Shield: shield/service.py with its catalogue and its repository. The receipt verifier is an argument,
--     any function of the platform, the receipt and the product.
--   * Challenge: challenge/repository.py and challenge/service.py. Challenge/Progress has what a progress event
--     does to each participation; Challenge/Wiring is the challenge part of main.py.
--   * Club: club/models.py, club/repository.py and club/service.py. Club/Repository and Club/Membership have the
--     clubs and their members, Club/Roster what ties them together; Club/Guards the checks that the operations
--     begin with. Club/Sessions, Club/Agendas and Club/Comments have the discussions, Club/Events the events
--     with their answers, Club/Messages the chat, Club/Rooms and Club/Plans the rooms and the reading plans,
--     each with the statements, the service and the theorems. The rows of the feed are wired in; a
--     notification is the list of its recipients in a result.
--   * Prelude: names of the libraries, Boolean tests, signed numbers, and the SQL statements on lists.
--   * Tests: the theorems at concrete inputs.
--
-- How values correspond. Timestamps are instants in microseconds, dates are ordinals, ids are natural
-- numbers; a fresh id and the clocks are arguments. Integers of the program that cannot be negative are
-- natural numbers; `paused_ms`, which a client may send negative, is a signed one. Columns that are only
-- shown are left out. `_reconcile_duration` computes in floating-point seconds; the model computes in
-- microseconds. Every loop is a recursion on the list that it runs over; only the client that follows
-- cursors, in Core/Cursors, has fuel. Where it runs out before a page without a cursor, the client has no
-- list. As many calls as there are messages, and at least one, are enough for the chat of a club, in
-- Club/Messages/Paging, and one call more than there are posts for the feed, in Feed/Posts/Paging.
--
-- Not modelled: the database engine (a statement on a list of rows stands for the SQL), concurrent
-- transactions, foreign keys other than the cascades that a modelled DELETE sets off and those of a club's or
-- a session's book, the background recomputation of taste profiles, the progress of goals, bookmarks and
-- statistics of the reading domain, the listings of the club domain, the explore list, the timelines and the
-- upload addresses of the feed, the lists of users and their search, the weekly reports, the campaigns and the
-- recipients of a club's notifications in the inbox, the remaining domains, the routers and the mobile
-- application.
pub mod Prelude
pub mod Core
pub mod Book
pub mod Feed
pub mod Social
pub mod Reading
pub mod Shield
pub mod Challenge
pub mod Notification
pub mod Club
pub mod Tests
