-- ===== src/Logger.antt =====
-- src/logger/lockqueue.h, logger.h and logger.cc: the messages that many threads log and one thread writes to files.
--
-- What stands under the mutex of the queue is one step, and so is a wait with the release of the mutex. A wait may end
-- without a notification. The file system is a text for each name; opening a file can fail. A text is the list of its
-- bytes.
pub mod Stamp
pub mod Order
pub mod Files
pub mod Drains
pub mod Lines
mod Tests
use network_library.Prelude.{
  ℕ, ◌≡◌, Bool, true, false, List, [], ◌∷◌, ◌++◌, ◌==◌, if◌then◌else◌, take,
}
use network_library.Http.Text.{same_bytes}
use network_library.Logger.Stamp.{Tm, to_string, file_name}

-- `LogLevel`
pub data LogLevel : Type 0 where
  info error fatal debug : LogLevel

-- Where the thread that the constructor starts is: about to look at the date, in `Pop` about to test the queue, in
-- `m_condvariable.wait`, or with a message that it is about to write; `gone` when the process has exited. The text is
-- the name of the file that it has open.
pub data Writer : Type 0 where
  opening gone : Writer
  taking waiting : List ℕ → Writer
  writing : List ℕ → List ℕ → Writer

-- A message that was written, with the name of its file and the time that stands before it.
pub record Entry : Type 0 where
  pub name : List ℕ
  pub stamp : List ℕ
  pub message : List ℕ

-- The logger, the time and the files. `logged` are the messages that `log` was ever called with, and `entries` those
-- that were written.
pub record World : Type 0 where
  pub lock_que : List (List ℕ)
  pub loglevel : LogLevel
  pub writer : Writer
  pub now : ℕ
  pub files : List ℕ → List ℕ
  pub logged : List (List ℕ)
  pub entries : List Entry

-- The constructor, which leaves `loglevel_` as it is.
abbrev pub new_logger : LogLevel → ℕ → (List ℕ → List ℕ) → World
new_logger level now files = record {
  lock_que = [];
  loglevel = level;
  writer = opening;
  now = now;
  files = files;
  logged = [];
  entries = [];
}

abbrev pub is_running : Writer → Bool
is_running gone = false
is_running _ = true

-- `m_condvariable.notify_one()`
abbrev pub notified : Writer → Writer
notified (waiting name) = taking name
notified w = w

-- `LockQueue::Push`
unfoldable pub push : List ℕ → World → World
push msg w = record w { lock_que = w.lock_que ++ msg ∷ []; writer = notified w.writer }

-- `Logger::log`
unfoldable pub log : List ℕ → World → World
log msg w = record (push msg w) { logged = w.logged ++ msg ∷ [] }

-- `Logger::setLogLevel`
abbrev pub set_log_level : LogLevel → World → World
set_log_level level w = record w { loglevel = level }

-- The bytes of a C string in a buffer, up to its NUL.
unfoldable pub c_str : List ℕ → List ℕ
c_str [] = []
c_str (x ∷ xs) = let rest = c_str xs in if x == 0 then [] else x ∷ rest

-- The message that a macro logs, of the text that its format makes: `snprintf` into 1024 bytes, and what
-- `std::string` reads there.
abbrev pub printed : List ℕ → List ℕ
printed text = c_str (take 1023 text)

-- One round of the `while` of `LockQueue::Pop`, and what follows it when there is a message.
unfoldable pub pop : List ℕ → World → World
pop name w = elim w.lock_que [
  | [] ↦ record w { writer = waiting name }
  | msg ∷ rest ↦ record w { lock_que = rest; writer = writing name msg }
]

-- The line that is written for a message.
abbrev pub line : List ℕ → List ℕ → List ℕ
line stamp msg = c_str (stamp ++ msg ++ 10 ∷ [])

-- `fputs` to a file that was opened with "a+".
abbrev pub append_to : List ℕ → List ℕ → (List ℕ → List ℕ) → List ℕ → List ℕ
append_to name text files other = if same_bytes other name then files other ++ text else files other

-- The end of a round of the writer, from the time to `fclose`.
unfoldable pub write : (ℕ → Tm) → List ℕ → List ℕ → World → World
write localtime name msg w =
    let stamp = to_string localtime w.now in
    record w {
      files = append_to name (line stamp msg) w.files;
      writer = opening;
      entries = w.entries ++ record { name = name; stamp = stamp; message = msg } ∷ [];
    }

module _ (localtime : ℕ → Tm) where
  -- The steps of the writer, of the threads that log, and of the time.
  pub data Step : World → World → Type 0 where
    opens :
        (w : World)
        → w.writer ≡ opening
        → Step w (record w { writer = taking (file_name (localtime w.now)) })
    fails_to_open : (w : World) → w.writer ≡ opening → Step w (record w { writer = gone })
    pops : (name : List ℕ) (w : World) → w.writer ≡ taking name → Step w (pop name w)
    wakes :
        (name : List ℕ) (w : World)
        → w.writer ≡ waiting name
        → Step w (record w { writer = taking name })
    writes :
        (name msg : List ℕ) (w : World)
        → w.writer ≡ writing name msg
        → Step w (write localtime name msg w)
    sets_level :
        (level : LogLevel) (w : World) → is_running w.writer ≡ true → Step w (set_log_level level w)
    logs : (text : List ℕ) (w : World) → is_running w.writer ≡ true → Step w (log (printed text) w)
    exits : (w : World) → Step w (record w { writer = gone })
    passes : (later : ℕ) (w : World) → Step w (record w { now = later })

  pub data Reach (w : World) : World → Type 0 where
    here : Reach w w
    then : {u v : World} → Reach w u → Step u v → Reach w v
