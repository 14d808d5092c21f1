-- ===== src/Builder/Race.antt =====
-- `Build` of builder/builder.go: once the command is started, the process writes into two pipes,
-- the goroutine of `Parse` reads them one after the other into the buffer of the log, and `Wait` closes
-- them as soon as the process has ended, as the package os/exec documents.
pub mod Laws
mod Tests
use bitcoinx.Base.{
  Text, [], ◌++◌, Bool, true, false, Option, none, some, Result, ok, err, Error, ◌≡◌, ◌≢◌,
}
use bitcoinx.Base.Lines.{scan_lines}

-- One of the pipes: what the process has written into it, what of that was not read yet, and what
-- was.
pub record Pipe : Type 0 where
  pub written : Text
  pub unread : Text
  pub read : Text

-- The goroutine in `Parse`, at the send on the channel without a buffer, and behind it.
pub data Parsing : Type 0 where
  reading sending received : Parsing

-- `Build` in `Wait`, before `buildLog`, at the receive from the channel, and returned.
pub data Main : Type 0 where
  waiting receiving : Main
  logging : Error → Main
  returned : Result (Unit {0}) → Main

-- `exit` is how the process has ended, `log` what was written to the log file, if it was made, and
-- `log_error` what `buildLog` returned, which `Build` drops.
pub record State : Type 0 where
  pub out : Pipe
  pub errors : Pipe
  pub exit : Option (Result (Unit {0}))
  pub closed : Bool
  pub parsing : Parsing
  pub main : Main
  pub log : Option Text
  pub log_error : Option Error

abbrev pub empty : Pipe
empty = record { written = []; unread = []; read = [] }

unfoldable pub started : State
started = record {
  out = empty;
  errors = empty;
  exit = none;
  closed = false;
  parsing = reading;
  main = waiting;
  log = none;
  log_error = none;
}

unfoldable pub wrote : Text → Pipe → Pipe
wrote t p = record p { written = p.written ++ t; unread = p.unread ++ t }

unfoldable pub took : Text → Text → Pipe → Pipe
took t rest p = record p { unread = rest; read = p.read ++ t }

-- `output`, the buffer behind the tee.
unfoldable pub output : State → Text
output s = s.out.read ++ s.errors.read

-- What follows on the result of `Wait`.
unfoldable pub after_wait : Result (Unit {0}) → Main
after_wait (ok u) = receiving
after_wait (err e) = logging e

-- The second pipe is read once the first one is at its end. `gives_up` is the scanner at a line that
-- it does not take, after which nothing is read any more.
pub data Step (s t : State) : Type 0 where
  writes_out : (text : Text) → s.exit ≡ none → t ≡ record s { out = wrote text s.out } → Step s t
  writes_errors :
      (text : Text) → s.exit ≡ none → t ≡ record s { errors = wrote text s.errors } → Step s t
  exits : (r : Result (Unit {0})) → s.exit ≡ none → t ≡ record s { exit = some r } → Step s t
  reads_out :
      (text rest : Text)
      → s.parsing ≡ reading
      → s.closed ≡ false
      → s.out.unread ≡ text ++ rest
      → t ≡ record s { out = took text rest s.out }
      → Step s t
  reads_errors :
      (text rest : Text)
      → s.parsing ≡ reading
      → s.closed ≡ false
      → s.exit ≢ none
      → s.out.unread ≡ []
      → s.errors.unread ≡ text ++ rest
      → t ≡ record s { errors = took text rest s.errors }
      → Step s t
  finds_end :
      s.parsing ≡ reading
      → s.exit ≢ none
      → s.out.unread ≡ []
      → s.errors.unread ≡ []
      → t ≡ record s { parsing = sending }
      → Step s t
  finds_closed :
      s.parsing ≡ reading → s.closed ≡ true → t ≡ record s { parsing = sending } → Step s t
  gives_up :
      (e : Error)
      → s.parsing ≡ reading
      → (scan_lines (output s)).1 ≡ some e
      → t ≡ record s { parsing = sending }
      → Step s t
  wait_returns :
      (r : Result (Unit {0}))
      → s.main ≡ waiting
      → s.exit ≡ some r
      → t ≡ record s { closed = true; main = after_wait r }
      → Step s t
  receives :
      s.main ≡ receiving
      → s.parsing ≡ sending
      → t ≡ record s { parsing = received; main = returned (ok tt) }
      → Step s t
  writes_log :
      (e : Error)
      → s.main ≡ logging e
      → t ≡ record s { log = some (output s); main = returned (err e) }
      → Step s t
  makes_no_log :
      (e x : Error)
      → s.main ≡ logging e
      → t ≡ record s { log_error = some x; main = returned (err e) }
      → Step s t
  writes_front :
      (e x : Error) (front rest : Text)
      → s.main ≡ logging e
      → output s ≡ front ++ rest
      → t ≡ record s { log = some front; log_error = some x; main = returned (err e) }
      → Step s t

pub data Reach (s : State) : State → Type 0 where
  here : Reach s s
  next : {t u : State} → Reach s t → Step t u → Reach s u

-- The results of `StdoutPipe`, `StderrPipe` and `Start`: the first error of them.
unfoldable pub set_up :
    Result (Unit {0}) → Result (Unit {0}) → Result (Unit {0}) → Result (Unit {0})
set_up (err e) errors start = err e
set_up (ok u) (err e) start = err e
set_up (ok u) (ok v) start = start

-- What `Build` returns, from the results of these calls.
pub data BuildReturns (out errors start : Result (Unit {0})) : Result (Unit {0}) → Type 0 where
  not_started :
      (e : Error) → set_up out errors start ≡ err e → BuildReturns out errors start (err e)
  built :
      (s : State) (r : Result (Unit {0}))
      → set_up out errors start ≡ ok tt
      → Reach started s
      → s.main ≡ returned r
      → BuildReturns out errors start r
