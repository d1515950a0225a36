-- ===== src/Commands/Instances.antt =====
-- src/bin/pipitor/run.rs, before and after the loop: any number of programs `pipitor run` with one
-- manifest, on a system with a lock of its file and a path for the socket of `pipitor ctl`. The file of
-- the manifest stays the same one; elsewhere its lock says nothing.
pub mod Exclusive
pub mod Left
use pipitor.Base.{
  ℕ, Bool, true, false, List, [], ◌∷◌, ◌==◌, ◌&&◌, Option, none, some, if◌then◌else◌,
}

-- Where a program is: before the lock, with it, with the path of the socket, in the loop with a socket and
-- its guard or with neither, past the loop, at its end, and killed.
pub data Phase : Type 0 where
  waiting locked prepared bound alone cleaned ended dead : Phase

-- A program goes on, and its next calls succeed or do not; or it is killed.
pub data Move : Type 0 where
  goes : Bool → Move
  dies : Move

-- The programs that hold the lock and that have made the socket file, and where each is.
pub record System : Type 0 where
  pub holder : Option ℕ
  pub socket : Option ℕ
  pub phase : ℕ → Phase

abbrev pub start : System
start = record { holder = none; socket = none; phase = λ p. waiting }

abbrev pub is_none : Option ℕ → Bool
is_none none = true
is_none (some p) = false

abbrev pub to : ℕ → Phase → System → System
to p ph s = record s { phase = λ q. if q == p then ph else s.phase q }

-- The end of `main` drops the file, and the system its lock.
abbrev pub unlocked : System → System
unlocked s = record s { holder = none }

-- `RmGuard::drop`: a failure is ignored.
abbrev pub drop_guard : Bool → System → System
drop_guard true s = record s { socket = none }
drop_guard false s = s

-- The next part of `main`: `open_manifest`, `File::open` and `try_lock_exclusive`; the runtime and
-- `ipc_path`; `ipc::server`, which cannot bind a path where there is a file; the block up to its end,
-- by whatever way, where the guard is dropped; and the end of `main`.
unfoldable pub go : Bool → Phase → ℕ → System → System
go ok waiting p s =
    if ok && is_none s.holder then to p locked (record s { holder = some p }) else to p ended s
go ok locked p s = if ok then to p prepared s else to p ended (unlocked s)
go ok prepared p s =
    if ok && is_none s.socket then to p bound (record s { socket = some p }) else to p alone s
go ok bound p s = to p cleaned (drop_guard ok s)
go ok alone p s = to p cleaned s
go ok cleaned p s = to p ended (unlocked s)
go ok ended p s = s
go ok dead p s = s

-- The system closes the files of a program that is killed.
unfoldable pub die : Phase → ℕ → System → System
die waiting p s = to p dead s
die locked p s = to p dead (unlocked s)
die prepared p s = to p dead (unlocked s)
die bound p s = to p dead (unlocked s)
die alone p s = to p dead (unlocked s)
die cleaned p s = to p dead (unlocked s)
die ended p s = s
die dead p s = s

unfoldable pub step : ℕ → Move → System → System
step p (goes ok) s = go ok (s.phase p) p s
step p dies s = die (s.phase p) p s

-- The moves of the programs in the order in which they happen.
unfoldable pub run_all : List (ℕ × Move) → System → System
run_all [] s = s
run_all ((p, m) ∷ moves) s = run_all moves (step p m s)

-- Between the lock and the end of `main`.
unfoldable pub is_inside : Phase → Bool
is_inside waiting = false
is_inside locked = true
is_inside prepared = true
is_inside bound = true
is_inside alone = true
is_inside cleaned = true
is_inside ended = false
is_inside dead = false

-- With the socket that it takes requests from.
unfoldable pub is_bound : Phase → Bool
is_bound bound = true
is_bound ph = false
