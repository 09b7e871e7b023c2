-- ===== src/Daemon/Files.antt =====
-- userspace/usb-displayd.c: sleep_milliseconds, write_all and the ready file. What a system call answers
-- is read from a script, in order.
pub mod Laws
use usbdisplay_stack.Common.{
  ℕ, Bool, not, ◌&&◌, Option, none, some, List, [], ◌∷◌, ◌++◌, leb, ◌==◌, if◌then◌else◌, Errno,
  Status, success, failure, ◌then_try◌, length, take, drop, eoverflow, eio, enametoolong,
}

-- nanosleep: the time is over, a signal came (and whether it asked for a stop), or it failed.
pub data Nap : Type 0 where
  rested : Nap
  woken : Bool → Nap
  sleepless : Errno → Nap

-- The stop that is asked for before the first nap ends the wait too: it is the caller's test. A script
-- that has run out lets the time pass.
unfoldable pub sleep_milliseconds : List Nap → Status
sleep_milliseconds [] = success
sleep_milliseconds (rested ∷ naps) = success
sleep_milliseconds (woken stop ∷ naps) =
    let rest = sleep_milliseconds naps in if stop then success else rest
sleep_milliseconds (sleepless e ∷ naps) = failure e

-- write: how many bytes it took, an interruption, or a failure.
pub data Written : Type 0 where
  wrote : ℕ → Written
  cut_off : Written
  refused : Errno → Written

-- The bytes that have reached the file when write_all returns, `out` being those of the calls before. A
-- script that has run out takes all the rest.
unfoldable pub write_all : List Written → List ℕ → List ℕ → List ℕ × Status
write_all [] buffer out = (out ++ buffer, success)
write_all (cut_off ∷ answers) buffer out =
    let rest = write_all answers buffer out in if length buffer == 0 then (out, success) else rest
write_all (refused e ∷ answers) buffer out =
    if length buffer == 0 then (out, success) else (out, failure e)
write_all (wrote n ∷ answers) buffer out =
    let rest = write_all answers (drop n buffer) (out ++ take n buffer) in
    if length buffer == 0 then (out, success) else if n == 0 then (out, failure eio) else rest

-- The two files, `none` where there is none.
pub record Files : Type 0 where
  pub ready : Option (List ℕ)
  pub temporary : Option (List ℕ)

-- What publish_ready_file asks for: a path, a temporary path that fits, the descriptor of open, the
-- text that snprintf prints, the writes, and the answers of close, rename and unlink.
pub record ReadyCalls : Type 0 where
  pub has_path : Bool
  pub path_fits : Bool
  pub opened : Status
  pub contents : List ℕ
  pub writes : List Written
  pub closed : Status
  pub renamed : Status
  pub unlinked : Bool

-- sizeof(contents)
abbrev pub contents_size : ℕ
contents_size = 256

-- What the file holds and how far it is good when the descriptor is closed.
unfoldable pub fill_temporary : ReadyCalls → List ℕ × Status
unfolding write_all
fill_temporary c =
    if leb contents_size (length c.contents)
    then ([], failure eoverflow)
    else write_all c.writes c.contents []

unfoldable pub remove_temporary : ReadyCalls → Files → Files
remove_temporary c f = if c.unlinked then record f { temporary = none } else f

-- Behind the open: the text is written, the descriptor closed, and the file renamed, or removed again.
unfoldable pub finish_ready_file : ReadyCalls → Files → Files × Status
unfolding fill_temporary remove_temporary
finish_ready_file c f =
    let (text, filled) = fill_temporary c in
    let f' = record f { temporary = some text } in
    elim (filled then_try c.closed then_try c.renamed) [
      | success ↦ (record { ready = some text; temporary = none }, success)
      | failure e ↦ (remove_temporary c f', failure e)
    ]

unfoldable pub publish_ready_file : ReadyCalls → Files → Files × Status
unfolding finish_ready_file
publish_ready_file c f =
    if not c.has_path
    then (f, success)
    else if not c.path_fits
    then (f, failure enametoolong)
    else elim c.opened [ failure e ↦ (f, failure e) | success ↦ finish_ready_file c f ]

unfoldable pub remove_ready_file : Bool → Bool → Files → Files
remove_ready_file has_path unlinked f =
    if has_path && unlinked then record f { ready = none } else f
