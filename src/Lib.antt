-- ===== src/Lib.antt =====
-- OpenScreenTime keeps a household's computers to the rules its parents set. The server stores one
-- policy document per person; the agent on each computer evaluates it and stops, warns and lets go;
-- a parent can open a stopped computer with a code that is checked without a network.
--
-- The parts and their files:
--  - Policy (policy/src/rules.rs, and the types of policy/src/lib.rs that it reads).
--    Policy.Document has Window, Bedtime, ScreenTime and Focus; Policy.Hm is parse_hm,
--    Policy.Compiled span, Compiled::new and clock_reason, Policy.Evaluate the walk of evaluate
--    with resume_at, Policy.Focus focus_blocking, Policy.Validate validate_screen_time and
--    validate_focus, Policy.Bracket the age brackets. Compiled.Reading reads a document window by
--    window, independently of the compiled spans. Under Policy.Evaluate, Rounds is about one round
--    of the walk, Walks about the walk, Resume about resume_at, Verdicts and Budget about the
--    verdict that comes out of them; Answers and Promises hold the properties.
--  - Client.ParentCode (client/src/parentcode.rs): Verifier::verify_at with the state it keeps.
--    Accepts is about a code that opens, Lockout about one that does not; Replay and Single are
--    about any list of attempts, Waits about those during a lockout.
--  - Client.Clock (client/src/clock.rs): TrustedClock, what the agent takes the time to be.
--  - Client.Warn (client/src/warn.rs): WarnState, the warnings before the stop that a verdict
--    announces. Its reasons are those of Policy.Compiled.
--  - Client.Activity (client/src/enforce/activity.rs): whose time counts, from what the probes
--    say; Seated is about the list of people at a seat, Counts holds the properties.
--  - Client.Usage (client/src/enforce/screentime.rs): UsageTracker and the verdict, which calls
--    rules::evaluate with the day and the override of the ledger, and takes the time from
--    TrustedClock. History, Grants and Overrides are about any sequence of calls on it.
--  - Client.Freeze (client/src/enforce/screentime/freeze.rs): the tree of cgroups. Names is
--    unescape, is_plumbing and session_id, Reading is read_tree with its bounds, Plans is plan,
--    collect, strays and holds; Writes is write_freeze, apply and thaw of
--    client/src/enforce/screentime.rs, on the same tree. Families is about the loop of strays,
--    Targets, Filed, Wholes, Planned and Complete about what a plan names, Reads, Above, Applied and
--    Stops about the tree after apply, Located and Thawed about it after thaw.
--  - Server.RateLimit (server/src/rate_limit.rs): RateLimiter::check with its table of windows,
--    client_key and the middleware. Pruning is about the table as a map, Hops about client_key;
--    Alone and Budget hold the properties.
--  - Server.Ledger (server/src/ledger.rs): what upsert_usage does to the tables with a report of
--    use. Console is console_day, which calls rules::evaluate as the agent does, and limit_minutes
--    of server/src/members.rs. Totals is about what is recorded,
--    Earned about what a login earned, Budget about a person's use over all their computers.
--  - Server.Commands (the command queue of server/src/agent.rs, cancel and the janitor of
--    server/src/commands.rs, the scrubbers of server/src/login_code.rs): the table of commands.
--    Steps has the queues that the operations reach; Rows, Counts, Invariant and Enqueue are about
--    one operation; Reachable and Settled hold the properties.
--  - Server.LoginCode (server/src/login_code.rs): issue, check and send_code, which enqueues
--    commands of Server.Commands and scrubs them. A call of check is two halves, what it reads and
--    what it then writes, so that calls can interleave; Opens is about second halves in any order,
--    Asks about how many codes are sent, Decoys about the answers to a decoy.
--  - Server.Earn (server/src/earn.rs, and ask of server/src/members.rs): a household is the
--    tables of Server.Ledger and the queue of Server.Commands, with the requests and the events.
--    Steps has the calls as steps, reports of use among them; Counts is about decisions on a list of
--    requests, Once about a request over all calls, Audit about the ledger beside the audit events.
--  - Server.Confirm (server/src/confirm.rs, guard_member of server/src/members.rs, insert_session
--    of server/src/auth.rs): sessions. Layers is about the two layers over the API, Windows about a
--    confirm window and the cookie that it replaces. Its code_verify calls check of
--    Server.LoginCode.
--  - Server.Voucher (server/src/voucher.rs): device vouchers, whose sessions are those of
--    Server.Confirm. Single is about one token over all calls.
--  - Common: lists, maps, options, tests, texts as lists of character codes, and integers.
--  - Policy.Tests, Client.Tests and Server.Tests: runs, and the theorems at concrete inputs.
--
-- How code becomes definitions. A &mut self method takes the state and returns the new one beside
-- its result. Numbers are natural numbers: moments are nanoseconds in Policy, Client.Clock,
-- Client.Activity, Client.Usage, Server.RateLimit, Server.Ledger and Server.Earn, seconds in
-- Server.Commands, Server.LoginCode, Server.Confirm and Server.Voucher, and seconds in
-- Client.Warn, where a difference may be negative and is an integer. The time zones of chrono are
-- the parameter Policy.Time.Zone, a function from moments to local date, weekday and minute, with
-- what the walk relies on as hypotheses; HMAC, argon2 and hex are the parameter
-- Client.ParentCode.Crypto. The tables of the database are lists of rows, and every statement on
-- them succeeds. The 64-bit shift register of base32_decode wraps around as it is written. Ids
-- that are drawn, codes, the hash of a code, whether a socket is live and the text of a payload
-- are arguments. The dates of the database are UTC.
--
-- The call with which a service manager files a process into a scope, adopt of
-- client/src/enforce/screentime.rs, is a parameter of apply. A path of cgroups is a list of
-- names, which are of ASCII characters, and a cgroup's children stand in the order of their
-- names; apply and plan are about the tree that was read, thaw about the whole tree, of which it
-- reads at most ten levels and 4096 cgroups. The failed codes are counted without the bound of
-- 32 bits; the counts of the ledger are u32 and wrap around or saturate as those of a release
-- build do.
--
-- The loops of evaluate and of resume_at look at most 48 hours (2880 minutes) ahead and go to the
-- next whole minute in each round, so resume_fuel is 2882; evaluate may also cut a round at the end
-- of the override and at the horizon, so walk_fuel is 2884. The loop of strays that grows a family
-- has one more than the processes of the unit as its fuel, as each of them joins it once.
--
-- What is not modelled: the rest of the server, the agent's loop, the enforcement on the network
-- and on processes, the lock screen, the desktop programs and the web console. They are files,
-- processes, sockets, SQL and drawing around the parts above. In the modelled files, the texts
-- that are shown, the reading and writing of the state files, and the reading of the files of a
-- cgroup or a process are left out.
mod Common
pub mod Policy
pub mod Client
pub mod Server
