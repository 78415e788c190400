-- ===== src/Logging/Sinks.antt =====
-- include/logging/logger_flusher.h: what the flushers do with a text. SimpleFileFlusher and
-- ProtectedFileFlusher append it to their file, as doFlush of AsyncFileLogFlusher does with each
-- text of its pool; what `append` returns is not looked at. The others print to std::cout, and
-- StringFlusher keeps the text. A lock around all of a call is left out. The destructor of a
-- flusher to a file closes the file. `none`: the fuel ran out.
mod Lines
mod Tests
use net_base.Base.{true, ℕ, Bool, List, [], ◌∷◌, ◌++◌, Option, none, some, Bytes, ◌>>=◌}
use net_base.File.{Kernel, WritableFile, append, close_file}

-- Where the texts go.
pub data Sink : Type 0 where
  to_file : WritableFile → Sink
  to_stdout : Sink
  to_string : (log : Bytes) → Sink

-- What is on std::cout, and the rest of the system.
pub record Outside (k : Kernel) : Type 0 where
  pub printed : Bytes
  pub world : k.World

module _ (k : Kernel) (buffer_size fuel : ℕ) where
  open k use {World}

  pub flush_file : Bytes → World × WritableFile → Option (World × WritableFile)
  flush_file str (w, f) = append k buffer_size fuel w f str >>= λ r. some (r.1, r.2)

  -- AsyncFileLogFlusher::doFlush, from the front of the pool on.
  pub flush_pool : List Bytes → World × WritableFile → Option (World × WritableFile)
  unfolding flush_file
  flush_pool [] s = some s
  flush_pool (str ∷ pool) s = flush_file str s >>= flush_pool pool

  -- Flusher::flush of the flushers without a thread
  pub flush_to : Bytes → Sink × Outside k → Option (Sink × Outside k)
  unfolding flush_file
  flush_to str (to_file f, o) =
      flush_file str (o.world, f) >>= λ r. some (to_file r.1, record o { world = r.0 })
  flush_to str (to_stdout, o) = some (to_stdout, record o { printed = o.printed ++ str })
  flush_to str (to_string log, o) = some (to_string (log ++ str), o)

  -- Texts one after the other, and the destructor.
  pub flush_texts : List Bytes → Sink × Outside k → Option (Sink × Outside k)
  unfolding flush_to
  flush_texts [] s = some s
  flush_texts (str ∷ texts) s = flush_to str s >>= flush_texts texts

  -- ~WritableFile closes a file that is open.
  close_open : Option ℕ → WritableFile → Outside k → Option (Bool × Outside k)
  close_open none f o = some (true, o)
  close_open (some fd) f o =
      close_file k fuel o.world f >>= λ r. some (r.0, record o { world = r.1 })

  -- The destructor of a flusher, with what closeFile returns there.
  pub end_flusher : Sink × Outside k → Option (Bool × Outside k)
  unfolding close_open
  end_flusher (to_file f, o) = close_open f.fd f o
  end_flusher (to_stdout, o) = some (true, o)
  end_flusher (to_string log, o) = some (true, o)
