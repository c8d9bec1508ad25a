-- ===== src/Lib.antt =====
-- The scripts of cryptocourt that build scenarios for a chain and that test the tests of its realm.
--
-- scripts/scenario.py builds a story about a chain: a `Scenario` records steps, and emitters turn
-- the steps into a testscript file, a shell script for a live node, a genesis file, a list of
-- accounts and a script of assertions. scripts/mutate.py applies the rows of a batch of mutations,
-- one at a time, to a copy of the realm's packages and says whether some suite objects.
-- scripts/mutate-parallel.py runs it in shards and joins their outputs. Both stage the copies below
-- a shadow root of scripts/gnoroot.py, and scripts/repolock.py keeps readers of the working tree
-- away from whoever rewrites it. Two guards look at the rows before a batch does:
-- check-mutation-anchors.py at what each row says, and check-mutant-collisions.py at the mutants
-- that they make. genesis-pkgs.py stages the packages of a genesis. selftest-checks.py plants edits
-- in the repository to see that each guard objects, and check-control-anchors.py looks beforehand
-- whether these edits still apply.
--
-- Base: the parts of Python that the scripts use. A `str` is the list of its code points. Code that
--   raises is `Result`, and a method that mutates its object and may raise is `Exec`: the state
--   comes back beside the error. A disk gives each directory its files.
-- Scenario: `class Scenario` is the record `Step.Scenario`, and each method is a definition of
--   `Builder` or `Verbs` under its own name (`mine` is `mine_blocks`, `call` is `call_any`,
--   `expect` is `expect_read`, `expect_refuse` and `note` are `expect_refuse` and `add_note`).
--   `Literal` has `_lit` and `_portable_pattern`, `Quote` has `_q_txtar`, `_q_sh` and `_args_*`,
--   `Bech32` has `pubkey_b64` up to the base64. `Story` is a scenario module as the list of its
--   calls, up to the first that raises; `Emit.Txtar`, `Emit.Accounts`, `Emit.Genesis`,
--   `Emit.Checks` and `Emit.Plan` are the emitters. `Command` is the command line, with `_load`,
--   `_list_ci` and `flag`, and `Reads` has `_realm_reads`. `Clock` says how the flags of the clock
--   follow the calls, and `Latch` is the latch of realm/r/kourtv2/testclock.gno: the part of the realm
--   that decides whether a transaction on its test clock succeeds.
-- Lock: `holder`, `hold`, `refuse_if_held` and the command line of repolock.py.
-- Shadow: `stage` of gnoroot.py; `Shadow.Roots` has `reap`, `build`, `_skip_staging` and `remove`,
--   and `Shadow.Session` has `real_root`, the context manager `shadow` (`with_shadow`) and `main`.
-- Mutate: `Suite` has `mutant_builds`, `run_suite`, `where` and `anchor_count`, `Output` the
--   regular expressions, `Verdict` the chain of branches on one row, and `Batch` has `main`
--   at a root that stands; `Batch.Session` is `main` with the making and the removal of that root.
-- Parallel: `Shards` has the split, `Report` the reading of one output, `Collect` the loop over the
--   results and the exit code. `Printed`, `Sections`, `Listed`, `Calm` and `Complete` join it to
--   what mutate.py prints.
-- Corpus: scripts/check-mutation-anchors.py. `Makefile` has `routinely_run`, `Rows` has
--   `row_verdicts` and `cross_verdicts`, `Guard` has `main` behind the lock and the fixtures, which
--   are in `Fixtures`, and `Batch` has `resolve` and the rows as mutate.py reads them. A message is
--   a constructor of `Problem` or `Clash`.
-- Collisions: scripts/check-mutant-collisions.py, `main`; `Unused` has `unused_after`.
-- Packages: scripts/genesis-pkgs.py, `source_dir`, `stage` and the loop of `main` (`close`);
--   `Imports` has the patterns of `imports_of`. `Decide` tests that a list of modules covers a
--   closure.
-- Selftest: scripts/selftest-checks.py. `Arms` has `control` and `feed`, `Session` has `inject` and
--   the arms in order, `Vacuity` has `vacuity_audit` and `Run` the coverage and the exit; `Exprs`
--   and `Anchors` are scripts/check-control-anchors.py. A repository gives each path its content.
-- Physics: scripts/check-demo-physics.py. `Scan` and `Entries` read the dataset, and `Rules` has
--   `check_burn` and the conviction values of `main`.
-- `Base.Closure` is the worklist that Corpus and Packages share, over the interface `Marks` of the
--   caller's sets.
--
-- Parameters stand for what is outside of the scripts: `reads`, the names of the realm's read
-- functions, which `Scenario.Reads` computes from its files; `kill`, what signal 0 to a process gives; `run`, a command that `hold --` starts;
-- `exec_module`, what a scenario module leaves, and `read_file`; `checkout` and `gno_env`, a
-- directory and the output of `gno env GNOROOT`; `run` of Selftest, what a guard says of a
-- repository, which it is taken not to change; `prepended`, rows in front of a corpus as JSON;
-- `tools`, what `gno lint` and `gno test` give on a disk; `b64`, base64; a `Checkout`, the GNOROOT
-- that is shadowed; `exists` and `is_dir`, what a path is; `digest`, sha256; `parses`, gofmt.
-- Numbers of Python are unbounded, and so are those here. Each loop is over a list, but for three
-- that run on fuel. The inner loop of `pubkey_b64`, `Bech32.flush`, has as many rounds as there are
-- bits, and each takes eight of them. A worklist has a round for each name that it starts with and
-- for each that an entry of its table may push; the lemma `walk_total` shows that these are enough.
-- For `close` of Packages the table lists the imports of a finite list of modules that covers the
-- closure.
--
-- Not modelled: the argument parsers of the scripts other than scenario.py; the other guards
-- scripts/check-*.py, and the other checks of check-demo-physics.py; the arms of the self-test and
-- the scenarios themselves, which are data; the realm in gno but for the latch of its test clock,
-- the web client and the Go programs. Files are those directly in a directory: a row's file name
-- with a slash in it names none. A line ends in one line feed: what Python's text mode makes of a
-- carriage return is left out. A file that is written can be opened. A thread of mutate-parallel.py
-- fills its own cell of a list, which is read when all have ended, so the shards are a list of
-- results.
pub mod Base
pub mod Scenario
pub mod Lock
pub mod Shadow
pub mod Physics
pub mod Selftest
pub mod Mutate
pub mod Parallel
pub mod Corpus
pub mod Collisions
pub mod Packages
