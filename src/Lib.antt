-- ===== src/Lib.antt =====
-- The Terminal Wrestling League server: its deterministic core.
--
-- The server runs wrestling matches of two players. Each turn, matchmaking collects one input from
-- each seat (or has the computer decide), puts the inputs in canonical order, and hands them to a
-- simulator, which resolves the turn with a seeded generator of random numbers. The inputs and the
-- checksums of each turn are recorded, and the record can be replayed.
--
-- Files:
--   Combat          internal/combat. Types (types.go), Rules (rules.go), Order (order.go:
--                   `CanonicalizeInputs`), and resolver.go in Hash (the checksums), Fighter (the
--                   preparation and regeneration), Scene (the steps of an action), Exchange (one
--                   fighter's action) and Turn (`ResolveTurn`). The proofs: Steps and Rounds
--                   (induction over the steps and over the loop), Bounds, Frame, Ending, Stun,
--                   Total, Position, Canonical, Arrival.
--   Engine          internal/engine. Rng (rng.go), Simulator (simulator.go); proofs in Range and
--                   Stepping.
--   Replay          internal/replay/replay.go.
--   Npc             internal/npc/engine.go; Choice and Adjust hold the weights, Interval, Moves and
--                   Named the proofs.
--   Matchmaking     internal/matchmaking/service.go. Slots (a seat: `waitForTurnInput`,
--                   `resolveTurnInput`), Collect (`collectTurnInputs`), Seeds (`pickArchetype`,
--                   `seedWithSalt`), Match (`runMatch`); proofs in Takeover and in Match's Rounds,
--                   Opening, Record, Finish and Alive, and in Ready. Floor has the queue side
--                   (`Enqueue`, `Dequeue`, `StartNPCMatch`, `processQueue`); proofs in Exclusive and
--                   Running. Tutorial has `RunTutorial`, with its proof in Lesson;
--                   Match/Practice has `runNPCMatch`, with its proof in Match/Drill.
--   Lobby           internal/lobby/service.go: the sessions and the queue. Agreed has its
--                   invariant; Waiting states what the queue promises, and Refine, Pairs and
--                   Leaving prove it.
--   Spectator       internal/spectator/hub.go. Uses counts the uses of a channel; Channels has the
--                   calls as steps; Capacity and Race (a broadcast that is interrupted).
--   Animation       internal/animation/renderer.go: Poses, Effects (the loops over events), Rows (a
--                   row of text), Captions (the words), Keyframes (the frames); proofs in Inferred,
--                   Sizes, Film, Apart and Hits.
--   Server          cmd/server/ssh_server.go: Lines (`splitCRLF` and the scanner), Input (the cleaning
--                   of a line), Menu, Commands (`parseActionCommand`), Handle (the dispatch) and Guided
--                   (the guided tutorial, the login); proofs in Breaks,
--                   Reads, Scanning and Reassembly (lines), Words, Gates, Typed and Pupil.
--                   Config is cmd/server/config.go, with its proof in Checked; Ensurer is
--                   cmd/server/player_ensurer.go, with its proof in Ensured.
--   Ranking         internal/ranking: types.go and glicko2.go, with the solver of the volatility in
--                   Solver; Limits has the proof.
--   Storage         internal/storage/repositories.go and repositories_m5.go. The rows and tables; Tx
--                   (statements, transactions and methods), with its rules in Tx/Hoare, Tx/Keeps and
--                   Tx/Runs; Players, Seasons, Ratings, Replays, Matches and Profiles. The proofs:
--                   Timeline (seasons), Sound and Kept (ratings and matches), Counted (profiles),
--                   Methods and Reach; Frame, Stored, ReadBack and Retold (replays); Scores, which
--                   joins `runMatch` to `FinalizeMatch`, and Preserved, which joins both to the
--                   replay.
--   Common, Tests   Shared names and lemmas; the theorems at concrete inputs.
--
-- How the source is read: An integer that is never negative is a natural number, any other is an
-- integer of Common.Int; `uint64`, `uint32` and durations keep their wrap-around. The fields of a
-- fighter stay far below the bounds of `int`, which are not modelled. A Go string is a list of
-- bytes; where the source changes the case of letters or trims white space, ASCII's are meant. An
-- error is a value. State that the source changes in place is passed on; maps by player id are
-- indexed by the fighter's slot, or are lists or functions. Resolvers, generators and engines are
-- never nil. The source of random numbers is an argument of the resolver, as in the source;
-- nothing is assumed of it but where a statement says so.
--
-- A `float64` is a value of a type with the operations that the code uses; where a proof needs it,
-- rounding keeps the order of literals. The database is its tables, and a statement is what its
-- SQL says, with the keys and the checks that db/migrations declares; a foreign key is not
-- checked. Whether a call of the driver fails, the identifiers and the time are functions of the
-- number of the call. A transaction that fails leaves nothing behind, and transactions are steps
-- of one relation.
--
-- The loop of a match runs for at most `MaxTurns` turns, and that of the tutorial for eight, which
-- is the argument on which each recurs. The digits of a number recur on the number itself, which
-- is enough: they read back (Common/Format). The scanner of lines takes a step for each read and
-- each line, twice the bytes, the chunks and two more at the most, which is enough
-- (Server/Reassembly); it stops at a line of 64 KiB, as the one of the standard library does. The
-- search of `solveSigmaPrime` has the thousand tries of the code; the loop after it, which the
-- code does not bound, has fuel, and a result that the code does not have stands for its end. No
-- other fuel is used. What the clock, the context and the channels deliver in each turn is a
-- function of the turn, over which the theorems quantify. The calls of the spectators' hub, and
-- those that pair players and end matches, are the steps of two relations. A call is one step,
-- although `Enqueue`, `Dequeue` and `processQueue` take their lock more than once: what can come
-- between is not modelled, but for a broadcast: a call may come between its copy of the channels
-- and its sends, though not between two sends.
--
-- Not modelled: SSH, which is input and output; telemetry and its tables; the pool of connections
-- and the migrations; the bot score and the rate limiter, which are over floating point numbers;
-- the lobby's view `Snapshot`; what is written to the players by matchmaking; and the registry of
-- active matches and watching. The seed of a match is an argument of `run_match`: the time that it
-- hashes is not modelled.
pub mod Common
pub mod Combat
pub mod Engine
pub mod Replay
pub mod Npc
pub mod Lobby
pub mod Spectator
pub mod Animation
pub mod Ranking
pub mod Storage
pub mod Server
pub mod Matchmaking
pub mod Tests
